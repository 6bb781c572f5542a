-- ===== src/Authority/Session.antt =====
-- The operations of `Authority` (shared_check_authority/core.py): its settings, the rows that it
-- reads, its tokens, and the admission and the settlement of a check.
pub mod Settings
pub mod Store
pub mod Token
pub mod Admit
pub mod Prepare
pub mod Settle
pub mod ReceiptFacts
pub mod Closes
pub mod Reserves
pub mod Once
pub mod Admitted
pub mod Charges
mod Tests
mod WriterTests
mod PrepareTests

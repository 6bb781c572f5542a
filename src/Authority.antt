-- ===== src/Authority.antt =====
-- The check authority (src/shared_check_authority): admission, allowance and settlement.
pub mod Policy
pub mod Usage
pub mod Grant
pub mod Access
mod Tests
pub mod Session

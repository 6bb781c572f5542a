-- ===== src/Authority/Usage.antt =====
-- shared_check_authority/purchase_usage.py: the allowance of one funded purchase period, kept in a
-- global row and in the account's period row. Functions return the actions of a transaction that
-- the caller commits.
pub mod Row
pub mod RowFacts
pub mod Actions
pub mod Counters
pub mod Writes
pub mod Moves
pub mod NewRow
pub mod Windows
pub mod Keys
pub mod PeriodWrites
pub mod Pairs
pub mod Pending
pub mod Open
pub mod Closing
pub mod Closures
pub mod Pages
pub mod Gathered
pub mod Tests

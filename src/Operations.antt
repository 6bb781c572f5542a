-- ===== src/Operations.antt =====
-- operations_reporting/reducer.py: the summary of one local day from a bounded batch of facts.
pub mod Facts
pub mod Gather
pub mod Checks
pub mod Attempts
pub mod Rejections
pub mod Scope
pub mod Report
pub mod Balance
pub mod Conserved
pub mod Replay
pub mod Counted
pub mod Priced
pub mod Selected
mod Tests

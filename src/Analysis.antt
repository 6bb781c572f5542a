-- ===== src/Analysis.antt =====
-- conversation_analysis/abuse_controls.py: one record for each analysis request, which a worker holds
-- by a lease, and from which a repeated request is answered.
pub mod Leases
pub mod LeaseFacts
pub mod Rates
mod Tests

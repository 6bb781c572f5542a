-- ===== src/Assessment.antt =====
-- url_assessment/assessment_service.py with the evidence of shared_lookup_freshness: the assessment of
-- a submitted URL by the redirects that were observed and a lookup of each.
pub mod Evidence
pub mod Request
pub mod Assess
pub mod Sound
pub mod Verdicts
pub mod Stops
pub mod Hops
pub mod Chains
pub mod Resolution
mod Tests

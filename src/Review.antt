-- ===== src/Review.antt =====
-- campaign_review/service.py: a reviewer confirms, publishes or suppresses a campaign.
pub mod Reviewer
pub mod Decide
pub mod Decided
pub mod States
pub mod Publishing
mod Tests

-- ===== src/Authority/Access.antt =====
-- `EntitlementWriter` of
-- shared_check_authority/entitlements.py: the sources of access, the access row made
-- from them, and the mutations that write both.
pub mod Effective
pub mod EffectiveFacts
pub mod Sources
pub mod SourcesFacts
pub mod Writer
pub mod Mutation
pub mod MutationFacts
pub mod TrialGrant

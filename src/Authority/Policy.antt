-- ===== src/Authority/Policy.antt =====
-- The policy constants and error codes of shared_check_authority/core.py and purchase_usage.py.
use amt_trust_check_radar_la.Base.{ℕ, String, Outcome}

abbrev pub owner_policy : String
owner_policy = "owner-2026-09-20-v1"

abbrev pub paid_completed_checks : ℕ
paid_completed_checks = 200

abbrev pub trial_completed_checks : ℕ
trial_completed_checks = 10

abbrev pub trial_seconds : ℕ
trial_seconds = 604800

abbrev pub retention_seconds : ℕ
retention_seconds = 604800

-- the texts that `AuthorityError` carries
pub data Code : Type 0 where
  policy_configuration_unavailable key_version_unavailable invalid_account input_rejected : Code
  authentication_required account_unavailable active_device_required : Code
  external_access_unavailable authority_state_invalid allowance_exhausted : Code
  transaction_uncertain rate_limited operation_proof_required check_id_conflict : Code
  operation_expired operation_pending key_rotation_pending reconciliation_required : Code
  execution_owner_mismatch outcome_unsupported result_summary_invalid : Code
  purchase_usage_invalid purchase_usage_unavailable purchase_usage_mismatch : Code
  purchase_usage_reconciliation_required key_inventory_unavailable : Code
  operations_receipt_invalid : Code
  authority_migration_required authority_operation_conflict writer_input_rejected : Code
  trial_retention_approval_required trial_not_eligible : Code
  -- a TypeError, KeyError or AttributeError that nothing catches
  uncaught : Code

abbrev pub Result : Type 0 → Type 0
Result A = Outcome Code A

-- ===== src/Authority/Session/Settings.antt =====
-- `Settings` of shared_check_authority/core.py. The fields have their annotated types; a negative
-- number of seconds would be refused as 0 is.
use amt_trust_check_radar_la.Base.{
  ℕ, ◌+◌, String, Bool, true, false, ◌&&◌, ◌||◌, not, Option, none, some, List, [], ◌∷◌, ltb, leb,
  ◌==◌, all, any, length, str_eq, if◌then◌else◌, raise_if,
}
use amt_trust_check_radar_la.Python.{codes, matches, alnum}
use amt_trust_check_radar_la.Authority.Policy.{
  Result, owner_policy, policy_configuration_unavailable,
}

-- `bytes` are numbers below 256
pub record Settings : Type 0 where
  pub users_table : String
  pub devices_table : String
  pub deletion_table : String
  pub authority_table : String
  pub cognito_issuer : String
  pub cognito_app_client_id : String
  pub cognito_required_scope : String
  pub policy_version : String
  pub active_key_id : String
  pub hmac_keys : List (String × List ℕ)
  pub operation_validity_seconds : ℕ
  pub worker_settlement_seconds : ℕ
  pub reconciliation_seconds : ℕ
  pub receipt_retention_seconds : ℕ
  pub counter_retention_seconds : ℕ
  pub attempt_window_seconds : ℕ
  pub attempts_per_window : ℕ
  pub max_inflight : ℕ
  pub enabled : Bool
  pub operations_environment : String

-- the characters that `str.strip` removes
abbrev is_space : ℕ → Bool
is_space c =
    (leb 9 c && leb c 13)
    || (leb 28 c && leb c 32)
    || (c == 133)
    || (c == 160)
    || (c == 5760)
    || (leb 8192 c && leb c 8202)
    || (c == 8232)
    || (c == 8233)
    || (c == 8239)
    || (c == 8287)
    || (c == 12288)

-- `not x.strip()`
abbrev is_blank : String → Bool
is_blank s = all is_space (codes s)

abbrev named_texts : Settings → List String
named_texts s =
    s.users_table ∷ s.devices_table ∷ s.deletion_table ∷ s.authority_table ∷ s.cognito_issuer
    ∷ s.cognito_app_client_id ∷ s.cognito_required_scope ∷ []

abbrev numbers : Settings → List ℕ
numbers s =
    s.operation_validity_seconds ∷ s.worker_settlement_seconds ∷ s.reconciliation_seconds
    ∷ s.receipt_retention_seconds ∷ s.counter_retention_seconds ∷ s.attempt_window_seconds
    ∷ s.attempts_per_window ∷ s.max_inflight ∷ []

abbrev pub key_of_id : String → List (String × List ℕ) → Option (List ℕ)
key_of_id k [] = none
key_of_id k ((j, v) ∷ keys) = if str_eq j k then some v else key_of_id k keys

abbrev pub is_key_id : String → List (String × List ℕ) → Bool
is_key_id k keys = any (λ e. str_eq e.0 k) keys

abbrev key_valid : String × List ℕ → Bool
key_valid e = matches "" alnum 1 8 e.0 && not (ltb (length e.1) 32)

abbrev nonempty_keys : List (String × List ℕ) → Bool
nonempty_keys [] = false
nonempty_keys (k ∷ ks) = true

-- Receipts outlive the operation, its settlement and its reconciliation; counters outlive receipts.
unfoldable pub deadlines_ordered : Settings → Bool
deadlines_ordered s =
    leb (s.operation_validity_seconds + s.worker_settlement_seconds + s.reconciliation_seconds)
      s.receipt_retention_seconds
    && leb s.receipt_retention_seconds s.counter_retention_seconds
    && leb s.attempt_window_seconds s.counter_retention_seconds

unfoldable pub settings_valid : Settings → Bool
settings_valid s =
    s.enabled
    && all (λ x. not (is_blank x)) (named_texts s)
    && str_eq s.policy_version owner_policy
    && any (str_eq s.operations_environment) ("dev" ∷ "uat" ∷ "prod" ∷ [])
    && all (λ n. ltb 0 n) (numbers s)
    && deadlines_ordered s
    && nonempty_keys s.hmac_keys
    && is_key_id s.active_key_id s.hmac_keys
    && all key_valid s.hmac_keys

-- `Settings.validate`
unfoldable pub validate_settings : Settings → Result Unit
validate_settings s = raise_if (not (settings_valid s)) policy_configuration_unavailable

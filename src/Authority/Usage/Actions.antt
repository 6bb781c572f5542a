-- ===== src/Authority/Usage/Actions.antt =====
-- purchase_usage.py: the actions that open an access window, fund a period and move the counters of
-- the global row and of the account's period row. `get_item` is a consistent read of the authority
-- table. Each condition on a row that was read pins every attribute of it.
use amt_trust_check_radar_la.Base.{
  ℕ, ◌+◌, String, Bool, true, false, ◌&&◌, ◌||◌, not, Option, none, some, List, [], ◌∷◌, ltb, leb,
  ◌==◌, if◌then◌else◌, ok, err, ◌>>=◌, ◌>>◌, raise_if, require,
}
use amt_trust_check_radar_la.Python.{
  ℤ, pos, of_ℤ, Value, int, dict, Dict, end, entry, put, lookup, natural, is_text, is_number,
  value_eq,
}
use amt_trust_check_radar_la.Dynamo.{
  Key, key_dict, Condition, equals, both, always, not_exists, Action, condition_check, delete,
  put_item,
}
use amt_trust_check_radar_la.Authority.Policy.{
  Result, owner_policy, paid_completed_checks, retention_seconds, purchase_usage_invalid,
  purchase_usage_unavailable, purchase_usage_reconciliation_required,
}
use amt_trust_check_radar_la.Authority.Usage.Row.{
  Usage, valid_key, bounds, effective_access_end, new_period_usage, validate,
}

abbrev pub Read : Type 0
Read = Key → Option Dict

abbrev item : Option Dict → Result Value
item none = err purchase_usage_unavailable
item (some row) = ok (dict row)

unfoldable pub read : Read → Key → ℕ → Bool → Result Usage
read get_item pointer now allow_expired = do
  k ← valid_key (dict (key_dict pointer))
  row ← item (get_item k)
  validate row (dict (key_dict k)) now allow_expired

abbrev pub exact_condition : Dict → Condition
exact_condition end = always
exact_condition (entry k v d) = both (equals k v) (exact_condition d)

-- the counters of `observed` in the proposed row
unfoldable pub with_counters : Usage → Dict → Dict
with_counters u proposed =
    put "reservedChecks" (lookup "reservedChecks" u.row)
      (put "usedChecks" (lookup "usedChecks" u.row) proposed)

-- the choice between the three actions; `access` is the proposed end of the window
unfoldable pub window_action : String → Usage → Dict → ℕ → ℕ → Result (List Action)
window_action table u proposed access now =
    if leb (access + retention_seconds) now
    then if u.reserved_checks == 0
      then ok (delete table u.pointer (exact_condition u.row) ∷ [])
      else err purchase_usage_reconciliation_required
    else if value_eq (dict proposed) (dict u.row)
    then ok (condition_check table u.pointer (exact_condition u.row) ∷ [])
    else ok (put_item table proposed (exact_condition u.row) ∷ [])

unfoldable pub access_window_actions : String → Value → Value → ℤ → ℕ → Result (List Action)
access_window_actions table pointer observed_global access_until now = do
  u ← validate observed_global pointer now true
  proposed ←
      new_period_usage pointer (lookup "startEpoch" u.row) (lookup "endEpoch" u.row)
        (some (int access_until))
  access ← require (of_ℤ access_until) purchase_usage_invalid
  raise_if (ltb u.access_end access && leb u.expires_at now) purchase_usage_reconciliation_required
  window_action table u (with_counters u proposed) access now

-- the counters with which a new local period starts
pub record Seed : Type 0 where
  pub used_checks : Value
  pub reserved_checks : Value

abbrev zero_seed : Seed
zero_seed = record { used_checks = int (pos 0); reserved_checks = int (pos 0) }

-- `access_until_epoch=None` is `none`
abbrev pub access_or : Option ℤ → ℤ → ℤ
access_or none finish = finish
access_or (some a) finish = a

-- a period that no account has used so far
unfoldable pub first_funding : String → Dict → ℕ → ℕ → Result (List Action × Seed)
first_funding table initial finish access = do
  raise_if (not (access == finish)) purchase_usage_reconciliation_required
  ok (put_item table initial (not_exists "PK") ∷ [], zero_seed)

-- a period that has a global row
unfoldable pub renewed_funding : String → Value → ℕ → ℕ → Dict → ℤ → ℕ → Result (List Action × Seed)
renewed_funding table pointer start finish row access now = do
  u ← validate (dict row) pointer now false
  raise_if (not (u.start_epoch == start && u.end_epoch == finish)) purchase_usage_invalid
  actions ← access_window_actions table pointer (dict u.row) access now
  ok (
    actions,
    record {
      used_checks = lookup "usedChecks" u.row;
      reserved_checks = lookup "reservedChecks" u.row;
    },
  )

abbrev fund : String → Value → ℕ → ℕ → ℕ → Dict → Option Dict → ℤ → ℕ → Result (List Action × Seed)
fund table pointer start finish access initial none until now =
    first_funding table initial finish access
fund table pointer start finish access initial (some row) until now =
    renewed_funding table pointer start finish row until now

unfoldable pub funding_actions :
    String → Value → ℤ → ℤ → Option Dict → ℕ → Option ℤ → Result (List Action × Seed)
funding_actions table pointer start finish observed_global now access_until = do
  let until = access_or access_until finish
  initial ← new_period_usage pointer (int start) (int finish) (some (int until))
  s ← require (of_ℤ start) purchase_usage_invalid
  e ← require (of_ℤ finish) purchase_usage_invalid
  access ← require (of_ℤ until) purchase_usage_invalid
  raise_if (ltb access e || not (leb s now && ltb now access)) purchase_usage_invalid
  fund table pointer s e access initial observed_global until now

-- a local period row that was checked
pub record Period : Type 0 where
  pub row : Dict
  pub pointer : Key
  pub grant_revision : ℕ
  pub start_epoch : ℕ
  pub end_epoch : ℕ
  pub access_end : ℕ
  pub used_checks : ℕ
  pub reserved_checks : ℕ

unfoldable pub is_period_row : Dict → Bool
is_period_row d =
    is_text "V1_ALLOWANCE_PERIOD" (lookup "recordType" d)
    && is_text owner_policy (lookup "policyVersion" d)
    && is_number paid_completed_checks (lookup "limit" d)

-- a missing row is Python's `None`, which is no dict
unfoldable pub validate_period : Option Dict → Result Period
validate_period period = do
  d ← require period purchase_usage_invalid
  raise_if (not (is_period_row d)) purchase_usage_invalid
  revision ← require (natural (lookup "grantRevision" d)) purchase_usage_invalid
  raise_if (revision == 0) purchase_usage_invalid
  used ← require (natural (lookup "usedChecks" d)) purchase_usage_invalid
  reserved ← require (natural (lookup "reservedChecks" d)) purchase_usage_invalid
  raise_if (ltb paid_completed_checks (used + reserved)) purchase_usage_invalid
  (start, finish) ← bounds (lookup "startEpoch" d) (lookup "endEpoch" d)
  access ← effective_access_end d
  k ← valid_key (lookup "purchaseUsageKey" d)
  ok (record {
    row = d;
    pointer = k;
    grant_revision = revision;
    start_epoch = start;
    end_epoch = finish;
    access_end = access;
    used_checks = used;
    reserved_checks = reserved;
  })

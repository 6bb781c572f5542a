-- ===== src/Authority/Usage/Counters.antt =====
-- purchase_usage.py: the paired counters of a funded period, and the period of a receipt.
use amt_trust_check_radar_la.Base.{
  ℕ, ◌+◌, String, Bool, true, false, ◌&&◌, not, Option, none, some, List, [], ◌∷◌, ltb, leb, ◌==◌,
  if◌then◌else◌, str_eq, ok, ◌>>=◌, ◌>>◌, raise_if, require,
}
use amt_trust_check_radar_la.Python.{
  ℤ, pos, negsuc, ◌+ℤ◌, of_ℤ, same_number, dict, Dict, end, entry, get, lookup, value_or, natural,
  integral, text_of, is_text, matches, name_char,
}
use amt_trust_check_radar_la.Dynamo.{Key, key_dict, add, Action, update}
use amt_trust_check_radar_la.Authority.Policy.{
  Result, owner_policy, paid_completed_checks, retention_seconds, purchase_usage_invalid,
  purchase_usage_mismatch,
}
use amt_trust_check_radar_la.Authority.Usage.Row.{Usage, valid_key, validate}
use amt_trust_check_radar_la.Authority.Usage.Actions.{
  Read, read, exact_condition, Period, validate_period,
}

-- The global row and the period row tell the same; both limits are the policy's.
unfoldable pub agrees : Usage → Period → Bool
agrees u p =
    u.start_epoch == p.start_epoch
    && u.end_epoch == p.end_epoch
    && u.used_checks == p.used_checks
    && u.reserved_checks == p.reserved_checks
    && u.access_end == p.access_end

unfoldable pub matching_usage : Read → Period → ℕ → Result Usage
matching_usage get_item p now = do
  u ← read get_item p.pointer now false
  raise_if (not (agrees u p)) purchase_usage_mismatch
  ok u

-- `None` where the period is past its deadline, and only if the caller allows that
unfoldable pub global_for_period : Read → Dict → ℕ → Bool → Result (Option Usage)
unfolding matching_usage
global_for_period get_item period now allow_expired = do
  p ← validate_period (some period)
  if allow_expired && leb (p.access_end + retention_seconds) now
      then ok none
      else do u ← matching_usage get_item p now; ok (some u)

abbrev pub is_positive : ℤ → Bool
is_positive (pos n) = ltb 0 n
is_positive (negsuc n) = false

abbrev pub is_zero : ℤ → Bool
is_zero (pos n) = n == 0
is_zero (negsuc n) = false

-- the key attributes of a row, as a dict
abbrev pub own_key : Dict → Dict
own_key d = entry "PK" (lookup "PK" d) (entry "SK" (lookup "SK" d) end)

unfoldable pub local_counter_action : String → Key → Dict → ℤ → ℤ → Action
local_counter_action table k row reserved_delta used_delta =
    update table k (add "reservedChecks" reserved_delta ∷ add "usedChecks" used_delta ∷ [])
      (exact_condition row)

unfoldable pub counter_action : String → Dict → ℤ → ℤ → ℕ → Result Action
unfolding local_counter_action
counter_action table observed reserved_delta used_delta now = do
  k ← valid_key (dict (own_key observed))
  u ← validate (dict observed) (dict (key_dict k)) now false
  more ← require (of_ℤ used_delta) purchase_usage_invalid
  reserved ← require (of_ℤ (pos u.reserved_checks +ℤ reserved_delta)) purchase_usage_invalid
  raise_if (ltb paid_completed_checks (u.used_checks + more + reserved)) purchase_usage_invalid
  raise_if (is_positive reserved_delta && leb u.access_end now) purchase_usage_invalid
  ok (local_counter_action table k u.row reserved_delta used_delta)

-- the action on the global row, if there is one
unfoldable pub global_actions : String → Option Usage → ℤ → ℤ → ℕ → Result (List Action)
global_actions table none reserved_delta used_delta now = ok []
global_actions table (some u) reserved_delta used_delta now = do
  a ← counter_action table u.row reserved_delta used_delta now
  ok (a ∷ [])

abbrev pub is_missing : Option Usage → Bool
is_missing none = true
is_missing (some u) = false

-- The period is one that `_grant` or `period_for_receipt` has read under its key.
unfoldable pub paired_counter_actions :
    String → Read → Key → Dict → ℤ → ℤ → ℕ → Bool → Result (List Action)
paired_counter_actions table get_item period_key period reserved_delta used_delta now
      allow_expired =
    do
      observed ← global_for_period get_item period now allow_expired
      raise_if (is_missing observed && not (is_zero used_delta)) purchase_usage_invalid
      held ← require (natural (lookup "reservedChecks" period)) purchase_usage_invalid
      require (of_ℤ (pos held +ℤ reserved_delta)) purchase_usage_invalid
      rest ← global_actions table observed reserved_delta used_delta now
      ok (local_counter_action table period_key period reserved_delta used_delta ∷ rest)

unfoldable pub is_paid_receipt : Dict → Bool
is_paid_receipt receipt =
    is_text "V1_CHECK_RECEIPT" (lookup "recordType" receipt)
    && is_text owner_policy (lookup "policyVersion" receipt)
    && is_text "paid" (lookup "basis" receipt)
    && is_text "ADMITTED" (lookup "state" receipt)

abbrev same_key : Key → Key → Bool
same_key a b = str_eq a.pk b.pk && str_eq a.sk b.sk

unfoldable pub period_for_receipt : Read → String → Dict → Result Period
period_for_receipt get_item partition receipt = do
  raise_if (not (is_paid_receipt receipt)) purchase_usage_invalid
  period_sk ← require (text_of (lookup "periodSK" receipt)) purchase_usage_invalid
  raise_if (not (matches "PERIOD#" name_char 1 64 period_sk)) purchase_usage_invalid
  revision ← require (integral (lookup "grantRevision" receipt)) purchase_usage_invalid
  pointer ← valid_key (lookup "purchaseUsageKey" receipt)
  p ← validate_period (get_item (record { pk = partition; sk = period_sk }))
  raise_if (not (same_key p.pointer pointer)) purchase_usage_mismatch
  raise_if (not (same_number revision (pos p.grant_revision))) purchase_usage_mismatch
  admitted_access ←
      require (integral (value_or (get "accessUntilEpoch" receipt) (lookup "endEpoch" p.row)))
        purchase_usage_mismatch
  access ← require (of_ℤ admitted_access) purchase_usage_mismatch
  raise_if (ltb access p.start_epoch) purchase_usage_mismatch
  ok p

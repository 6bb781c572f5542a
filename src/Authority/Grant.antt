-- ===== src/Authority/Grant.antt =====
-- `Authority._grant` of shared_check_authority/core.py: the access row and the allowance period that
-- an admission rests on.
pub mod Facts
use amt_trust_check_radar_la.Base.{
  ℕ, ◌+◌, String, Bool, true, false, ◌&&◌, ◌||◌, not, Option, none, some, ltb, leb, ◌==◌,
  if◌then◌else◌, ◌&◌, ok, err, ◌>>=◌, ◌>>◌, raise_if, require,
}
use amt_trust_check_radar_la.Python.{
  ℤ, pos, ◌+ℤ◌, same_number, at_most, after, Value, null, text, Dict, get, lookup, natural,
  integral, text_of, is_text, is_number, has_key, matches, name_char,
}
use amt_trust_check_radar_la.Dynamo.{Key}
use amt_trust_check_radar_la.Authority.Policy.{
  Result, owner_policy, paid_completed_checks, trial_completed_checks, trial_seconds,
  external_access_unavailable, authority_state_invalid, allowance_exhausted,
}
use amt_trust_check_radar_la.Authority.Usage.Row.{effective_access_end}
use amt_trust_check_radar_la.Authority.Usage.Actions.{Read}
use amt_trust_check_radar_la.Authority.Usage.Counters.{global_for_period}

-- what an access right rests on
pub data Basis : Type 0 where
  paid trial complimentary : Basis

unfoldable pub basis_of : Value → Option Basis
basis_of v =
    if is_text "paid" v
    then some paid
    else if is_text "trial" v
    then some trial
    else if is_text "complimentary" v
    then some complimentary
    else none

abbrev pub is_complimentary : Basis → Bool
is_complimentary complimentary = true
is_complimentary _ = false

abbrev pub limit_of : Basis → ℕ
limit_of paid = paid_completed_checks
limit_of _ = trial_completed_checks

-- `x.get('validUntilEpoch', 'missing') is None`
abbrev pub is_null : Option Value → Bool
is_null (some null) = true
is_null _ = false

abbrev pub ends_after : Option ℤ → ℕ → Bool
ends_after none now = false
ends_after (some e) now = after e now

abbrev pub starts_by : Option ℤ → ℕ → Bool
starts_by none now = false
starts_by (some s) now = at_most s now

-- Only a complimentary right may be without end.
unfoldable pub in_force : Basis → Dict → ℕ → Bool
in_force b grant now =
    starts_by (integral (lookup "validFromEpoch" grant)) now
    && (is_complimentary b && is_null (get "validUntilEpoch" grant)
        || ends_after (integral (lookup "validUntilEpoch" grant)) now)

abbrev pub is_positive_number : Value → Bool
is_positive_number v = elim (natural v) [ none ↦ false | some n ↦ ltb 0 n ]

abbrev pub same_integral : ℤ → Option ℤ → Bool
same_integral n none = false
same_integral n (some m) = same_number m n

unfoldable pub is_access_row : Dict → Bool
is_access_row grant =
    is_text "V1_ACCESS_AUTHORITY" (lookup "recordType" grant)
    && same_integral (pos 1) (integral (lookup "schemaVersion" grant))
    && is_text "ACTIVE" (lookup "state" grant)
    && is_text owner_policy (lookup "policyVersion" grant)
    && is_positive_number (lookup "revision" grant)

-- the first test of `_grant`, on the access row
unfoldable pub access_basis : Option Dict → ℕ → Result Basis
access_basis grant now = do
  g ← require grant external_access_unavailable
  b ← require (basis_of (lookup "basis" g)) external_access_unavailable
  raise_if (not (is_access_row g && in_force b g now)) external_access_unavailable
  ok b

-- the counters of a period
pub record Allowance : Type 0 where
  pub row : Dict
  pub used_checks : ℕ
  pub reserved_checks : ℕ

unfoldable pub is_allowance_row : Basis → ℕ → Dict → Bool
is_allowance_row b revision d =
    is_text "V1_ALLOWANCE_PERIOD" (lookup "recordType" d)
    && is_text owner_policy (lookup "policyVersion" d)
    && is_number revision (lookup "grantRevision" d)
    && is_number (limit_of b) (lookup "limit" d)

-- the period row that the access row names
unfoldable pub allowance : Basis → ℕ → Option Dict → ℕ → Result Allowance
allowance b revision period now = do
  d ← require period authority_state_invalid
  raise_if (not (is_allowance_row b revision d)) authority_state_invalid
  used ← require (natural (lookup "usedChecks" d)) authority_state_invalid
  reserved ← require (natural (lookup "reservedChecks" d)) authority_state_invalid
  raise_if (ltb (limit_of b) (used + reserved)) authority_state_invalid
  start ← require (integral (lookup "startEpoch" d)) authority_state_invalid
  finish ← require (integral (lookup "endEpoch" d)) authority_state_invalid
  raise_if (not (at_most start now)) authority_state_invalid
  ok (record { row = d; used_checks = used; reserved_checks = reserved })

abbrev window_from : Dict → Option ℤ → Bool
window_from g none = false
window_from g (some activated) =
    is_text "explicit" (lookup "activationKind" g)
    && same_integral activated (integral (lookup "validFromEpoch" g))
    && same_integral (activated +ℤ pos trial_seconds) (integral (lookup "validUntilEpoch" g))

-- A trial was activated explicitly, and runs for seven days from then.
unfoldable pub is_trial_window : Dict → Bool
is_trial_window g = window_from g (integral (lookup "activatedAtEpoch" g))

-- the test that is special to the basis
unfoldable pub check_basis : Basis → Read → Dict → Dict → ℕ → Result Unit
check_basis complimentary get_item g d now = ok tt
check_basis paid get_item g d now = do
  access ← effective_access_end d
  raise_if (leb access now) authority_state_invalid
  usage ← global_for_period get_item d now false
  ok tt
check_basis trial get_item g d now = do
  raise_if (not (is_trial_window g)) authority_state_invalid
  raise_if
      (has_key "purchaseUsageKey" d
        || has_key "accessUntilEpoch" d
        || not (ends_after (integral (lookup "endEpoch" d)) now))
      authority_state_invalid

-- what `_grant` returns: the period is none where nothing is metered
pub record Grant : Type 0 where
  pub row : Dict
  pub basis : Basis
  pub period : Option Allowance

-- the metered part of `_grant`
unfoldable pub metered : Read → String → Basis → Dict → ℕ → Bool → Result Grant
metered get_item partition b g now allow_exhausted = do
  revision ← require (natural (lookup "periodRevision" g)) authority_state_invalid
  raise_if (revision == 0) authority_state_invalid
  period_id ← require (text_of (lookup "periodId" g)) authority_state_invalid
  raise_if (not (matches "" name_char 1 64 period_id)) authority_state_invalid
  a ← allowance b revision (get_item (record { pk = partition; sk = "PERIOD#" & period_id })) now
  check_basis b get_item g a.row now
  raise_if (not allow_exhausted && leb (limit_of b) (a.used_checks + a.reserved_checks))
      allowance_exhausted
  ok (record { row = g; basis = b; period = some a })

unfoldable pub grant : Read → String → ℕ → Bool → Result Grant
grant get_item partition now allow_exhausted = do
  let row = get_item (record { pk = partition; sk = "ACCESS" })
  b ← access_basis row now
  g ← require row external_access_unavailable
  if is_complimentary b
      then ok (record { row = g; basis = b; period = none })
      else metered get_item partition b g now allow_exhausted

-- ===== src/Authority/Tests.antt =====
-- A funded period, a trial and their rows, on which the theorems of Authority are applied.
use amt_trust_check_radar_la.Base.{
  ℕ, String, ◌≡◌, refl, true, false, none, some, [], ◌∷◌, if◌then◌else◌, str_eq, ok, ◌>>=◌, ◌&◌,
  arith, ◌<◌,
}
use amt_trust_check_radar_la.Python.{
  pos, Value, text, dict, Dict, end, entry, value_eq, matches, pad, same_keys, natural, integral,
}
use amt_trust_check_radar_la.Dynamo.{Key, key_dict, put_item}
use amt_trust_check_radar_la.Authority.Policy.{owner_policy}
use amt_trust_check_radar_la.Authority.Usage.Row.{
  Usage, key, new_period_usage, is_digest, usage_row, number, validate, valid_key, usage_shape,
  usage_numbers, bounds, effective_access_end, is_usage_row, expiry_holds, expiry_sort,
}
use amt_trust_check_radar_la.Authority.Usage.RowFacts.{IsSound, validate-IsSound}
use amt_trust_check_radar_la.Authority.Usage.NewRow.{fresh, Created, new_period_usage-validate}
use amt_trust_check_radar_la.Authority.Usage.Windows.{Windowed, access_window_actions-Windowed}
use amt_trust_check_radar_la.Authority.Usage.Pairs.{Paired, paired_counter_actions-Paired}
use amt_trust_check_radar_la.Authority.Usage.Actions.{
  Read, read, validate_period, is_period_row, access_window_actions, with_counters, window_action,
  exact_condition,
}
use amt_trust_check_radar_la.Authority.Usage.Counters.{
  local_counter_action, counter_action, global_actions, matching_usage, global_for_period, agrees,
  paired_counter_actions,
}
use amt_trust_check_radar_la.Authority.Grant.{
  paid, grant, metered, allowance, is_allowance_row, check_basis, access_basis, basis_of, in_force,
  is_access_row, is_trial_window,
}
use amt_trust_check_radar_la.Authority.Grant.Facts.{IsAdmissible, grant-IsAdmissible}
use amt_trust_check_radar_la.Authority.Access.Effective.{effective, source_in_force}
use amt_trust_check_radar_la.Authority.Access.Sources.{
  validate_sources, check_source, source_valid, window_valid, period_valid,
}
use amt_trust_check_radar_la.Authority.Access.EffectiveFacts.{
  first_in_force, access_basis-effective,
}
use amt_trust_check_radar_la.Authority.Access.SourcesFacts.{effective-trial}
use amt_trust_check_radar_la.Authority.Usage.Keys.{key-valid}
use amt_trust_check_radar_la.Authority.Usage.Moves.{Moved, counter_action-Moved}

abbrev pub digest : String
digest = "0123456789abcdef0123456789abcdef0123456789abcdef0123456789abcdef"

abbrev pub funded_key : Key
funded_key = record { pk = "V1#PURCHASE_USAGE#" & digest; sk = "PERIOD#" & digest }

-- a period from 1000 to 5000
abbrev pub funded_row : Dict
unfolding usage_row expiry_sort pad
funded_row = usage_row funded_key (number 1000) (number 5000) (number 5000) 609800

counter_action-Moved_example :
    Moved funded_row
      (pos 1)
      (pos 0)
      2000
      (local_counter_action "authority" funded_key funded_row (pos 1) (pos 0))
unfolding counter_action validate valid_key usage_shape usage_numbers bounds is_usage_row
    expiry_holds expiry_sort effective_access_end ◌>>=◌ matches pad same_keys natural integral
    usage_row
counter_action-Moved_example =
    counter_action-Moved "authority" funded_row (pos 1) (pos 0) 2000 _ refl

abbrev pub account : String
account = "V1#ACCOUNT#1"

abbrev pub period_key : Key
period_key = record { pk = account; sk = "PERIOD#p1" }

-- the account's side of the funded period
abbrev pub period : Dict
period = entry "PK" (text account) (
    entry "SK" (text "PERIOD#p1") (
      entry "recordType" (text "V1_ALLOWANCE_PERIOD") (
        entry "policyVersion" (text owner_policy) (
          entry "grantRevision" (number 1) (
            entry "startEpoch" (number 1000) (
              entry "endEpoch" (number 5000) (
                entry "limit" (number 200) (
                  entry "usedChecks" (number 0) (
                    entry "reservedChecks" (number 0)
                      (entry "purchaseUsageKey" (dict (key_dict funded_key)) end))))))))))

abbrev pub access_row : Dict
access_row = entry "PK" (text account) (
    entry "SK" (text "ACCESS") (
      entry "recordType" (text "V1_ACCESS_AUTHORITY") (
        entry "schemaVersion" (number 1) (
          entry "policyVersion" (text owner_policy) (
            entry "revision" (number 1) (
              entry "state" (text "ACTIVE") (
                entry "basis" (text "paid") (
                  entry "validFromEpoch" (number 1000) (
                    entry "validUntilEpoch" (number 5000) (
                      entry "periodId" (text "p1") (entry "periodRevision" (number 1) end)))))))))))

-- the authority table with the three rows
abbrev pub rows : Read
rows k =
    if str_eq k.sk "ACCESS"
    then some access_row
    else if str_eq k.sk "PERIOD#p1"
    then some period
    else some funded_row

validate-IsSound_example : IsSound 2000 false (fresh funded_key funded_row 1000 5000 5000)
unfolding validate valid_key usage_shape usage_numbers bounds is_usage_row expiry_holds expiry_sort
    effective_access_end ◌>>=◌ matches pad same_keys natural integral usage_row
validate-IsSound_example =
    validate-IsSound (dict funded_row) (dict (key_dict funded_key)) 2000 false _ refl

paired_counter_actions-Paired_example : Paired period (pos 1) (pos 0) 2000 (
    local_counter_action "authority" period_key period (pos 1) (pos 0)
    ∷ local_counter_action "authority" funded_key funded_row (pos 1) (pos 0)
    ∷ [])
unfolding paired_counter_actions global_for_period matching_usage agrees global_actions
    counter_action read validate_period is_period_row validate valid_key usage_shape usage_numbers
    bounds is_usage_row expiry_holds expiry_sort effective_access_end ◌>>=◌ matches pad same_keys
    natural integral usage_row
paired_counter_actions-Paired_example =
    paired_counter_actions-Paired "authority" rows period_key period (pos 1) (pos 0) 2000 _ refl

grant-IsAdmissible_example : IsAdmissible rows account 2000 (record {
  row = access_row;
  basis = paid;
  period = some (record { row = period; used_checks = 0; reserved_checks = 0 });
})
unfolding grant metered allowance is_allowance_row check_basis access_basis basis_of in_force
    is_access_row global_for_period matching_usage agrees read validate_period is_period_row
    validate valid_key usage_shape usage_numbers bounds is_usage_row expiry_holds expiry_sort
    effective_access_end ◌>>=◌ matches pad same_keys natural integral usage_row
grant-IsAdmissible_example = grant-IsAdmissible rows account 2000 _ refl

-- the row after its access window was shortened to 3000
abbrev shortened_row : Dict
unfolding usage_row expiry_sort pad
shortened_row = usage_row funded_key (number 1000) (number 5000) (number 3000) 607800

abbrev pointer : Value
pointer = dict (key_dict funded_key)

abbrev funded : Usage
funded = fresh funded_key funded_row 1000 5000 5000

access_window_actions-Windowed_example :
    (u : Usage) × (access : ℕ) × (validate (dict funded_row) pointer 2000 true ≡ ok u)
    × (pos 3000 ≡ pos access)
    × (u.access_end < access → 2000 < u.expires_at)
    × Windowed pointer u access 2000
        (put_item "authority" shortened_row (exact_condition funded_row) ∷ [])
unfolding access_window_actions window_action with_counters value_eq new_period_usage validate
    valid_key usage_shape usage_numbers bounds is_usage_row expiry_holds expiry_sort
    effective_access_end ◌>>=◌ matches pad same_keys natural integral usage_row
access_window_actions-Windowed_example =
    access_window_actions-Windowed "authority" pointer (dict funded_row) (pos 3000) 2000 _ refl

new_row : Created pointer (number 1000) (number 5000) (number 3000) shortened_row
unfolding valid_key bounds effective_access_end ◌>>=◌ matches same_keys natural integral usage_row
    shortened_row
new_row = record {
  key = funded_key;
  start_epoch = 1000;
  end_epoch = 5000;
  access_end = 3000;
  key_ok = refl;
  bounds_ok = refl;
  access_ok = refl;
  row_made = refl;
}

new_period_usage-validate_example :
    validate (dict shortened_row) pointer 2000 false
    ≡ ok (fresh new_row.key shortened_row new_row.start_epoch new_row.end_epoch new_row.access_end)
unfolding new_row
new_period_usage-validate_example =
    new_period_usage-validate pointer (number 1000) (number 5000) (number 3000) shortened_row 2000
      false new_row (omega arith)

key-valid_example :
    (is_digest digest ≡ true)
    × (is_digest digest ≡ true)
    × (valid_key (dict (key_dict funded_key)) ≡ ok funded_key)
unfolding key matches
key-valid_example = key-valid digest digest funded_key refl

-- a trial that was activated at 1000
abbrev pub trial_source : Dict
trial_source = entry "state" (text "ACTIVE") (
    entry "validFromEpoch" (number 1000) (
      entry "validUntilEpoch" (number 605800)
        (entry "periodId" (text "t1") (entry "periodRevision" (number 1) end))))

abbrev pub trial_sources : Dict
trial_sources = entry "trial" (dict trial_source) end

access_basis-effective_example :
    access_basis (some (effective 2000 account none trial_sources)) 2000
    ≡ first_in_force trial_sources 2000
access_basis-effective_example = access_basis-effective 2000 account none trial_sources

effective-trial_example : is_trial_window (effective 2000 account none trial_sources) ≡ true
unfolding validate_sources check_source source_valid window_valid period_valid source_in_force ◌>>=◌
    matches same_keys natural integral is_trial_window
effective-trial_example = effective-trial 2000 account none trial_sources refl refl

-- ===== src/Authority/Access/Effective.antt =====
-- `_effective`: the access row that a set of sources amounts to at a time. Complimentary access
-- comes before paid access, and paid access before a trial.
use amt_trust_check_radar_la.Base.{
  ℕ, ◌+◌, String, Bool, true, false, ◌&&◌, Option, none, some, if◌then◌else◌,
}
use amt_trust_check_radar_la.Python.{
  Value, null, text, dict, Dict, end, entry, put, lookup, natural, integral, dict_of, is_text,
}
use amt_trust_check_radar_la.Authority.Policy.{owner_policy}
use amt_trust_check_radar_la.Authority.Usage.Row.{number}
use amt_trust_check_radar_la.Authority.Grant.{starts_by, ends_after}

-- `sources.get(basis)`, none if it is falsy
abbrev pub truthy_dict : Option Dict → Option Dict
truthy_dict none = none
truthy_dict (some end) = none
truthy_dict (some (entry k v d)) = some (entry k v d)

abbrev pub source_of : String → Dict → Option Dict
source_of basis sources = truthy_dict (dict_of (lookup basis sources))

abbrev pub is_none : Value → Bool
is_none null = true
is_none _ = false

-- A source without end counts only if that is allowed.
unfoldable pub source_in_force : Bool → Dict → ℕ → Bool
source_in_force endless source now =
    is_text "ACTIVE" (lookup "state" source)
    && starts_by (integral (lookup "validFromEpoch" source)) now
    && (if is_none (lookup "validUntilEpoch" source)
        then endless
        else ends_after (integral (lookup "validUntilEpoch" source)) now)

abbrev pub in_force_now : Bool → Option Dict → ℕ → Bool
in_force_now endless none now = false
in_force_now endless (some s) now = source_in_force endless s now

-- `(int(old['revision']) if old else 0) + 1`; the revision of a row that was read is positive
abbrev pub revision_of : Option ℕ → ℕ
revision_of none = 0
revision_of (some n) = n

abbrev pub next_revision : Option Dict → ℕ
next_revision none = 1
next_revision (some old) = revision_of (natural (lookup "revision" old)) + 1

unfoldable pub inactive_row : String → Option Dict → Dict → Dict
inactive_row pk old sources = entry "PK" (text pk) (
    entry "SK" (text "ACCESS") (
      entry "recordType" (text "V1_ACCESS_AUTHORITY") (
        entry "schemaVersion" (number 1) (
          entry "policyVersion" (text owner_policy) (
            entry "revision" (number (next_revision old))
              (entry "sources" (dict sources) (entry "state" (text "INACTIVE") end)))))))

-- the row with the window of the source that is in force
abbrev pub with_window : String → Dict → Dict → Dict
with_window basis source row = put "validUntilEpoch" (lookup "validUntilEpoch" source) (
    put "validFromEpoch" (lookup "validFromEpoch" source)
      (put "basis" (text basis) (put "state" (text "ACTIVE") row)))

abbrev pub with_period : Dict → Dict → Dict
with_period source row =
    put "periodRevision" (lookup "periodRevision" source)
      (put "periodId" (lookup "periodId" source) row)

abbrev pub with_activation : Dict → Dict → Dict
with_activation source row =
    put "activatedAtEpoch" (lookup "validFromEpoch" source)
      (put "activationKind" (text "explicit") row)

abbrev pub window_row : String → Option Dict → Dict → Dict
window_row basis none row = row
window_row basis (some source) row = with_window basis source row

abbrev pub period_row : Option Dict → Dict → Dict
period_row none row = row
period_row (some source) row = with_period source row

abbrev pub activation_row : Option Dict → Dict → Dict
activation_row none row = row
activation_row (some source) row = with_activation source row

unfoldable pub effective : ℕ → String → Option Dict → Dict → Dict
unfolding inactive_row
effective now pk old sources =
    let row = inactive_row pk old sources in
    let free = source_of "complimentary" sources in
    let paid = source_of "paid" sources in
    let trial = source_of "trial" sources in
    if in_force_now true free now
    then window_row "complimentary" free row
    else if in_force_now false paid now
    then period_row paid (window_row "paid" paid row)
    else if in_force_now false trial now
    then activation_row trial (period_row trial (window_row "trial" trial row))
    else row

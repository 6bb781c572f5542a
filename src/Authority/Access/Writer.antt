-- ===== src/Authority/Access/Writer.antt =====
-- `EntitlementWriter`: the reading of the access row, the history of trials, the one transaction of a
-- mutation with its audit row, and the activation of a trial. A mutation is named by the JSON text
-- of its action and details.
use amt_trust_check_radar_la.Base.{
  ℕ, ◌+◌, String, Bool, true, false, ◌&&◌, ◌||◌, not, Option, none, some, List, [], ◌∷◌, leb, ◌==◌,
  str_eq, if◌then◌else◌, ok, ◌>>=◌, ◌>>◌, raise_if, require,
}
use amt_trust_check_radar_la.Python.{
  pos, Value, dict, Dict, end, lookup, natural, integral, value_eq, dict_of, text_of, is_text,
  is_number, has_key, keys_within, same_keys, text_before,
}
use amt_trust_check_radar_la.Dynamo.{Key}
use amt_trust_check_radar_la.Authority.Policy.{
  Result, owner_policy, trial_seconds, authority_state_invalid, authority_migration_required,
  invalid_account,
}
use amt_trust_check_radar_la.Authority.Grant.{same_integral, is_positive_number}
use amt_trust_check_radar_la.Authority.Access.Effective.{is_none}
use amt_trust_check_radar_la.Authority.Access.Sources.{validate_sources}
use amt_trust_check_radar_la.Authority.Session.Store.{
  Db, Env, partition, assert_account, is_subject,
}

abbrev pub access_key : String → Key
access_key pk = record { pk = pk; sk = "ACCESS" }

abbrev pub history_key : String → Key
history_key pk = record { pk = pk; sk = "TRIAL_HISTORY" }

-- `sorted(hmac_keys)`
abbrev insert_id : String → List String → List String
insert_id k [] = k ∷ []
insert_id k (j ∷ ids) =
    let later = insert_id k ids in if text_before k j then k ∷ j ∷ ids else j ∷ later

abbrev sorted_ids : List (String × List ℕ) → List String
sorted_ids [] = []
sorted_ids ((k, v) ∷ keys) = insert_id k (sorted_ids keys)

abbrev partitions : Env → String → List String → Result (List String)
partitions e account [] = ok []
partitions e account (k ∷ ids) = do
  p ← partition e account k
  ps ← partitions e account ids
  ok (p ∷ ps)

-- the account's partition under every retained key
unfoldable pub deletion_partitions : Env → String → Result (List String)
deletion_partitions e account = do
  raise_if (not (is_subject account)) invalid_account
  partitions e account (sorted_ids e.settings.hmac_keys)

abbrev holds : Option Dict → Bool
holds none = false
holds (some row) = true

-- Another partition than `pk` has an access row.
abbrev held_elsewhere : Db → String → List String → Bool
held_elsewhere db pk [] = false
held_elsewhere db pk (p ∷ ps) =
    (not (str_eq p pk) && holds (db.authority (access_key p))) || held_elsewhere db pk ps

unfoldable pub is_source_row : Dict → Bool
is_source_row row =
    is_text "V1_ACCESS_AUTHORITY" (lookup "recordType" row)
    && same_integral (pos 1) (integral (lookup "schemaVersion" row))
    && is_text owner_policy (lookup "policyVersion" row)
    && is_positive_number (lookup "revision" row)

abbrev same_field : Dict → Dict → String → Bool
same_field row source k = value_eq (lookup k row) (lookup k source)

abbrev is_integral : Value → Bool
is_integral v = elim (integral v) [ none ↦ false | some n ↦ true ]

-- The row is the one that its source makes.
unfoldable pub matches_source : Dict → Dict → Bool → Bool
matches_source row source free =
    is_text "ACTIVE" (lookup "state" source)
    && is_integral (lookup "validFromEpoch" row)
    && (is_none (lookup "validUntilEpoch" row) || is_integral (lookup "validUntilEpoch" row))
    && same_field row source "validFromEpoch"
    && same_field row source "validUntilEpoch"
    && (free
        || (is_integral (lookup "periodRevision" row)
            && same_field row source "periodId"
            && same_field row source "periodRevision"))

abbrev check_active : Dict → Dict → Result Unit
check_active row sources = do
  basis ← require (text_of (lookup "basis" row)) authority_state_invalid
  source ← require (dict_of (lookup basis sources)) authority_state_invalid
  raise_if (not (matches_source row source (str_eq basis "complimentary"))) authority_state_invalid

-- the tests of `_read` on the access row
unfoldable pub check_access : Dict → Result Dict
check_access row = do
  raise_if (not (is_source_row row)) authority_state_invalid
  sources ← require (dict_of (lookup "sources" row)) authority_state_invalid
  raise_if (not (keys_within sources ("trial" ∷ "paid" ∷ "complimentary" ∷ [])))
      authority_state_invalid
  validate_sources sources
  if is_text "ACTIVE" (lookup "state" row)
      then (check_active row sources >> ok sources)
      else (raise_if (not (is_text "INACTIVE" (lookup "state" row))) authority_state_invalid
          >> ok sources)

-- what `_read` returns
pub record Access : Type 0 where
  pub pk : String
  pub row : Option Dict
  pub sources : Dict

abbrev sources_of : Option Dict → Result Dict
sources_of none = ok end
sources_of (some row) = check_access row

-- `_read`
unfoldable pub read_access : Env → Db → String → Result Access
read_access e db account = do
  assert_account db account
  pk ← partition e account e.settings.active_key_id
  others ← deletion_partitions e account
  raise_if (held_elsewhere db pk others) authority_migration_required
  sources ← sources_of (db.authority (access_key pk))
  ok (record { pk = pk; row = db.authority (access_key pk); sources = sources })

abbrev history_fields : List String
history_fields =
    "PK" ∷ "SK" ∷ "recordType" ∷ "policyVersion" ∷ "activationKind" ∷ "activatedAtEpoch" ∷ []

unfoldable pub is_history : String → Dict → Bool
is_history pk row =
    same_keys row history_fields
    && is_text pk (lookup "PK" row)
    && is_text "TRIAL_HISTORY" (lookup "SK" row)
    && is_text "V1_TRIAL_ELIGIBILITY" (lookup "recordType" row)
    && is_text owner_policy (lookup "policyVersion" row)
    && is_text "explicit" (lookup "activationKind" row)

-- one activation at most is remembered, under whatever key
abbrev agrees_with : ℕ → Option ℕ → Bool
agrees_with epoch none = true
agrees_with epoch (some a) = epoch == a

abbrev activation : String → Option Dict → Option ℕ → ℕ → Result (Option ℕ)
activation pk none activated now = ok activated
activation pk (some row) activated now = do
  epoch ← require (natural (lookup "activatedAtEpoch" row)) authority_state_invalid
  raise_if (not (is_history pk row && leb epoch now && agrees_with epoch activated))
      authority_state_invalid
  ok (some epoch)

unfoldable pub activations : Db → List String → Option ℕ → ℕ → Result (Option ℕ)
activations db [] activated now = ok activated
activations db (p ∷ ps) activated now = do
  more ← activation p (db.authority (history_key p)) activated now
  activations db ps more now

abbrev fits_history : Value → Option ℕ → Bool
fits_history (dict source) (some a) =
    is_number a (lookup "validFromEpoch" source)
    && is_number (a + trial_seconds) (lookup "validUntilEpoch" source)
fits_history _ _ = false

-- `trial_history`, the epoch of the activation
unfoldable pub trial_history : Env → Db → String → Dict → ℕ → Result (Option ℕ)
trial_history e db account sources now = do
  ps ← deletion_partitions e account
  activated ← activations db ps none now
  raise_if (has_key "trial" sources && not (fits_history (lookup "trial" sources) activated))
      authority_state_invalid
  ok activated

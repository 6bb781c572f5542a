-- ===== src/Authority/Session/Store.antt =====
-- The tables that the authority reads, the conditions of its transactions, and the account and the
-- device that an operation is made for. `hmac` is the hexadecimal HMAC-SHA256 of a text under a key
-- and `sha256` the hexadecimal digest of a key. An error that the source does not catch is
-- `uncaught`.
use amt_trust_check_radar_la.Base.{
  ℕ, String, Bool, true, false, ◌&&◌, ◌||◌, not, Option, none, some, List, [], ◌∷◌, ◌++◌, ◌==◌,
  if◌then◌else◌, ◌&◌, ok, ◌>>=◌, ◌>>◌, raise_if, require,
}
use amt_trust_check_radar_la.Python.{
  pos, Value, null, bool, text, dict, Dict, end, entry, lookup, natural, integral, text_of, is_text,
  value_eq, same_keys, matches, alnum, lower_is, codes,
}
use amt_trust_check_radar_la.Dynamo.{
  Key, Condition, equals, above, at_most, both, always, not_exists, Action, condition_check,
}
use amt_trust_check_radar_la.Authority.Policy.{
  Result, owner_policy, key_version_unavailable, invalid_account, account_unavailable,
  active_device_required, key_inventory_unavailable,
}
use amt_trust_check_radar_la.Authority.Usage.Row.{number}
use amt_trust_check_radar_la.Authority.Usage.Actions.{Read}
use amt_trust_check_radar_la.Authority.Grant.{
  Basis, complimentary, same_integral, is_positive_number, Grant,
}
use amt_trust_check_radar_la.Authority.Session.Settings.{Settings, key_of_id}

-- the tables, read consistently
pub record Db : Type 0 where
  pub users : Read
  pub devices : Read
  pub deletions : Read
  pub authority : Read

-- what the authority was made with
pub record Env : Type 0 where
  pub settings : Settings
  pub hmac : List ℕ → String → String
  pub sha256 : List ℕ → String

-- One call of `transact_write_items`: whether it returned, and the tables that later reads see.
abbrev pub Commit : Type 0
Commit = Db → List Action → Bool × Db

unfoldable pub mac : Env → String → String → String → Result String
mac e key_id purpose value = do
  k ← require (key_of_id key_id e.settings.hmac_keys) key_version_unavailable
  ok (e.hmac k (purpose & "\0" & value))

unfoldable pub partition : Env → String → String → Result String
partition e account key_id = do m ← mac e key_id "account" account; ok ("V1#" & key_id & "#" & m)

-- `SUBJECT_PATTERN`: a letter or digit, and at most 199 more characters
abbrev subject_char : ℕ → Bool
subject_char c = alnum c || (c == b'.') || (c == b'_') || (c == b':') || (c == b'@') || (c == b'-')

abbrev fingerprint_char : ℕ → Bool
fingerprint_char c = alnum c || (c == b'.') || (c == b'_') || (c == b':') || (c == b'-')

abbrev starts_with : (ℕ → Bool) → List ℕ → Bool
starts_with cls [] = false
starts_with cls (c ∷ cs) = cls c

abbrev starts_alnum : String → Bool
starts_alnum s = starts_with alnum (codes s)

abbrev pub is_subject : String → Bool
is_subject s = matches "" subject_char 1 200 s && starts_alnum s

abbrev pub is_fingerprint : String → Bool
is_fingerprint s = matches "" fingerprint_char 1 256 s && starts_alnum s

abbrev pub profile_key : String → Key
profile_key account = record { pk = "USER#" & account; sk = "PROFILE" }

abbrev pub deletion_key : String → Key
deletion_key account = record { pk = "ACCOUNT#" & account; sk = "ACCOUNT_DELETION" }

abbrev is_true : Value → Bool
is_true (bool true) = true
is_true _ = false

abbrev pub is_absent : Option Dict → Bool
is_absent none = true
is_absent (some d) = false

unfoldable pub is_active_profile : String → Dict → Bool
is_active_profile account profile =
    is_text account (lookup "sub" profile)
    && is_text "ACTIVE" (lookup "status" profile)
    && is_true (lookup "ageVerified" profile)

-- `_assert_account`
unfoldable pub assert_account : Db → String → Result Unit
assert_account db account = do
  raise_if (not (is_subject account)) invalid_account
  profile ← require (db.users (profile_key account)) account_unavailable
  raise_if
      (not (is_active_profile account profile)
        || not (is_absent (db.deletions (deletion_key account))))
      account_unavailable

-- the values of the headers with the binding's name
abbrev binding_values : Dict → List Value
binding_values end = []
binding_values (entry k v d) =
    let more = binding_values d in
    if lower_is "x-device-binding-fingerprint" k then v ∷ more else more

abbrev only_text : List Value → Option String
only_text (v ∷ []) = text_of v
only_text _ = none

abbrev headers_of : Value → Dict
headers_of (dict d) = d
headers_of _ = end

abbrev pub binding_key : String → Key
binding_key account = record { pk = "USER#" & account; sk = "ACTIVE_BINDING" }

abbrev pub device_key : String → String → Key
device_key account fingerprint = record { pk = "USER#" & account; sk = "DEVICE#" & fingerprint }

pub record Device : Type 0 where
  pub fingerprint : String
  pub version : ℕ

-- `_device`: the device of the request is the one that the account is bound to now
unfoldable pub device : Db → Value → String → Result Device
device db headers account = do
  fingerprint ← require (only_text (binding_values (headers_of headers))) active_device_required
  raise_if (not (is_fingerprint fingerprint)) active_device_required
  pointer ← require (db.devices (binding_key account)) active_device_required
  version ← require (natural (lookup "stateVersion" pointer)) active_device_required
  raise_if
      (not (is_text "ACTIVE_BINDING_POINTER" (lookup "recordType" pointer))
        || version == 0
        || not (is_text fingerprint (lookup "bindingFingerprint" pointer)))
      active_device_required
  binding ← require (db.devices (device_key account fingerprint)) active_device_required
  raise_if
      (not (is_text account (lookup "accountId" binding))
        || not (is_text "ACTIVE" (lookup "status" binding))
        || not (is_text fingerprint (lookup "bindingFingerprint" binding)))
      active_device_required
  ok (record { fingerprint = fingerprint; version = version })

abbrev pub inventory_key : Key
inventory_key = record { pk = "V1#CONTROL"; sk = "HMAC_KEY_INVENTORY" }

abbrev issued_keys : (List ℕ → String) → List (String × List ℕ) → Dict
issued_keys sha256 [] = end
issued_keys sha256 ((k, v) ∷ keys) = entry k (text (sha256 v)) (issued_keys sha256 keys)

unfoldable pub is_inventory : Env → Dict → Bool
is_inventory e row =
    same_keys row
      ("PK" ∷ "SK" ∷ "recordType" ∷ "schemaVersion" ∷ "revision" ∷ "coverage" ∷ "issuedKeys" ∷ [])
    && is_text "V1_HMAC_KEY_INVENTORY" (lookup "recordType" row)
    && same_integral (pos 1) (integral (lookup "schemaVersion" row))
    && is_positive_number (lookup "revision" row)
    && is_text "VERIFIED_COMPLETE" (lookup "coverage" row)
    && value_eq (lookup "issuedKeys" row) (dict (issued_keys e.sha256 e.settings.hmac_keys))

-- `verified_inventory`
unfoldable pub verified_inventory : Env → Db → Result Dict
verified_inventory e db = do
  row ← require (db.authority inventory_key) key_inventory_unavailable
  raise_if (not (is_inventory e row)) key_inventory_unavailable
  ok row

unfoldable pub inventory_condition : String → Dict → Action
inventory_condition table row = condition_check table inventory_key (
    both (equals "revision" (lookup "revision" row)) (
      both (equals "coverage" (text "VERIFIED_COMPLETE")) (
        both (equals "issuedKeys" (lookup "issuedKeys" row)) (
          both (equals "recordType" (text "V1_HMAC_KEY_INVENTORY"))
            (equals "schemaVersion" (number 1))))))

-- `_account_conditions`
unfoldable pub account_conditions : Env → Db → String → Result (List Action)
account_conditions e db account = do
  inventory ← verified_inventory e db
  ok (
      inventory_condition e.settings.authority_table inventory
      ∷ condition_check e.settings.users_table (profile_key account) (
          both (equals "status" (text "ACTIVE"))
            (both (equals "ageVerified" (bool true)) (equals "sub" (text account))))
      ∷ condition_check e.settings.deletion_table (deletion_key account) (not_exists "PK")
      ∷ [])

-- the end of the access row, which may be none
abbrev end_condition : Value → ℕ → Condition
end_condition null now = equals "validUntilEpoch" null
end_condition v now = both (equals "validUntilEpoch" v) (above "validUntilEpoch" now)

unfoldable pub period_condition : Basis → Dict → Condition
period_condition complimentary grant = always
period_condition _ grant =
    both (equals "periodId" (lookup "periodId" grant))
      (equals "periodRevision" (lookup "periodRevision" grant))

unfoldable pub access_condition : Grant → ℕ → Condition
access_condition g now = both (equals "recordType" (text "V1_ACCESS_AUTHORITY")) (
    both (equals "schemaVersion" (number 1)) (
      both (equals "revision" (lookup "revision" g.row)) (
        both (equals "state" (text "ACTIVE")) (
          both (equals "basis" (lookup "basis" g.row)) (
            both (equals "policyVersion" (text owner_policy)) (
              both (equals "validFromEpoch" (lookup "validFromEpoch" g.row)) (
                both (at_most "validFromEpoch" now) (
                  both (end_condition (lookup "validUntilEpoch" g.row) now)
                    (period_condition g.basis g.row)))))))))

-- `_authority_conditions`
unfoldable pub authority_conditions :
    Env → Db → String → String → Device → Grant → ℕ → Result (List Action)
authority_conditions e db account part d g now = do
  conditions ← account_conditions e db account
  ok (
      conditions
      ++ (condition_check e.settings.devices_table (binding_key account) (
            both (equals "recordType" (text "ACTIVE_BINDING_POINTER")) (
              both (equals "stateVersion" (number d.version))
                (equals "bindingFingerprint" (text d.fingerprint))))
          ∷ condition_check e.settings.devices_table (device_key account d.fingerprint) (
              both (equals "status" (text "ACTIVE")) (
                both (equals "accountId" (text account))
                  (equals "bindingFingerprint" (text d.fingerprint))))
          ∷ condition_check e.settings.authority_table (record { pk = part; sk = "ACCESS" })
              (access_condition g now)
          ∷ []))

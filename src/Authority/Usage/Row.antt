-- ===== src/Authority/Usage/Row.antt =====
-- purchase_usage.py: keys, deadlines, the rows that it creates and the check of rows that it reads.
-- The clock reads whole seconds since 1970, so `now` is a natural number. A function that only
-- checks returns the numbers that it checked.
use amt_trust_check_radar_la.Base.{
  ℕ, ◌+◌, String, Bool, ◌&&◌, ◌||◌, not, Option, List, [], ◌∷◌, ltb, ◌==◌, if◌then◌else◌, ◌&◌, ok,
  err, ◌>>=◌, ◌>>◌, raise_if, require,
}
use amt_trust_check_radar_la.Python.{
  pos, Value, int, text, dict, Dict, end, entry, get, lookup, value_or, natural, same_keys, dict_of,
  is_text, is_number, matches, hex, pad,
}
use amt_trust_check_radar_la.Dynamo.{Key}
use amt_trust_check_radar_la.Authority.Policy.{
  Result, owner_policy, paid_completed_checks, retention_seconds, purchase_usage_invalid,
}

abbrev pub v1_fields : List String
v1_fields =
    "PK" ∷ "SK" ∷ "recordType" ∷ "schemaVersion" ∷ "policyVersion" ∷ "startEpoch" ∷ "endEpoch"
    ∷ "limit" ∷ "usedChecks" ∷ "reservedChecks" ∷ "expiresAt" ∷ "GSI1PK" ∷ "GSI1SK" ∷ []

abbrev pub fields : List String
fields = "accessUntilEpoch" ∷ v1_fields

-- `[0-9a-f]{64}`
abbrev pub is_digest : String → Bool
is_digest s = matches "" hex 64 64 s

unfoldable pub key : String → String → Result Key
key root_digest order_digest =
    if is_digest root_digest && is_digest order_digest
    then ok (record { pk = "V1#PURCHASE_USAGE#" & root_digest; sk = "PERIOD#" & order_digest })
    else err purchase_usage_invalid

abbrev pub key_of : Value → Value → Result Key
key_of (text pk) (text sk) =
    if matches "V1#PURCHASE_USAGE#" hex 64 64 pk && matches "PERIOD#" hex 64 64 sk
    then ok (record { pk = pk; sk = sk })
    else err purchase_usage_invalid
key_of _ _ = err purchase_usage_invalid

unfoldable pub valid_key : Value → Result Key
valid_key (dict d) =
    if same_keys d ("PK" ∷ "SK" ∷ [])
    then key_of (lookup "PK" d) (lookup "SK" d)
    else err purchase_usage_invalid
valid_key _ = err purchase_usage_invalid

-- `_bounds`
unfoldable pub bounds : Value → Value → Result (ℕ × ℕ)
bounds start finish = do
  s ← require (natural start) purchase_usage_invalid
  e ← require (natural finish) purchase_usage_invalid
  raise_if (not (ltb s e)) purchase_usage_invalid
  ok (s, e)

-- The access window of a row ends with the funded period, unless the row says otherwise.
unfoldable pub effective_access_end : Dict → Result ℕ
effective_access_end period = do
  start ← require (natural (lookup "startEpoch" period)) purchase_usage_invalid
  finish ← require (natural (lookup "endEpoch" period)) purchase_usage_invalid
  access ←
      require (natural (value_or (get "accessUntilEpoch" period) (lookup "endEpoch" period)))
        purchase_usage_invalid
  raise_if (not (ltb start finish) || ltb access start) purchase_usage_invalid
  ok access

unfoldable pub usage_deadline : Dict → Result ℕ
usage_deadline period = do access ← effective_access_end period; ok (access + retention_seconds)

-- the sort key of the expiry index
unfoldable pub expiry_sort : ℕ → Key → String
expiry_sort deadline k = pad 12 deadline & "#" & k.pk & "#" & k.sk

abbrev pub number : ℕ → Value
number n = int (pos n)

abbrev pub window : Value → Value → Value → Dict
window start finish access =
    entry "startEpoch" start (entry "endEpoch" finish (entry "accessUntilEpoch" access end))

-- the row of a period that nothing was charged to; `access` is the end of its access window
unfoldable pub usage_row : Key → Value → Value → Value → ℕ → Dict
usage_row k start finish access deadline = entry "PK" (text k.pk) (
    entry "SK" (text k.sk) (
      entry "recordType" (text "V1_PURCHASE_USAGE") (
        entry "schemaVersion" (number 2) (
          entry "policyVersion" (text owner_policy) (
            entry "startEpoch" start (
              entry "endEpoch" finish (
                entry "accessUntilEpoch" access (
                  entry "limit" (number paid_completed_checks) (
                    entry "usedChecks" (number 0) (
                      entry "reservedChecks" (number 0) (
                        entry "expiresAt" (number deadline) (
                          entry "GSI1PK" (text "V1_EXPIRING")
                            (entry "GSI1SK" (text (expiry_sort deadline k)) end)))))))))))))

-- `access_until_epoch=None` is `none`
unfoldable pub new_period_usage : Value → Value → Value → Option Value → Result Dict
new_period_usage pointer start finish access_until = do
  k ← valid_key pointer
  bounds start finish
  let access = value_or access_until finish
  a ← effective_access_end (window start finish access)
  ok (usage_row k start finish access (a + retention_seconds))

-- a row that was checked, with the numbers in it
pub record Usage : Type 0 where
  pub row : Dict
  pub pointer : Key
  pub start_epoch : ℕ
  pub end_epoch : ℕ
  pub access_end : ℕ
  pub used_checks : ℕ
  pub reserved_checks : ℕ
  pub expires_at : ℕ

-- the texts and numbers that a row of this kind must carry
unfoldable pub is_usage_row : Key → Dict → Bool
is_usage_row k d =
    is_text k.pk (lookup "PK" d)
    && is_text k.sk (lookup "SK" d)
    && is_text "V1_PURCHASE_USAGE" (lookup "recordType" d)
    && is_text owner_policy (lookup "policyVersion" d)
    && is_number paid_completed_checks (lookup "limit" d)

abbrev fields_of : ℕ → List String
fields_of version = if version == 1 then v1_fields else fields

-- the first test of `validate`: the row has the fields of its schema version and names the pointer
unfoldable pub usage_shape : Key → Value → Result Dict
usage_shape k row = do
  d ← require (dict_of row) purchase_usage_invalid
  version ← require (natural (lookup "schemaVersion" d)) purchase_usage_invalid
  raise_if (not (version == 1 || version == 2)) purchase_usage_invalid
  raise_if (not (same_keys d (fields_of version))) purchase_usage_invalid
  raise_if (not (is_usage_row k d)) purchase_usage_invalid
  ok d

-- what `validate` tests of the expiry, given the numbers of the row
unfoldable pub expiry_holds : Key → Dict → ℕ → ℕ → ℕ → Bool → Bool
expiry_holds k d expires access now allow_expired =
    expires == access + retention_seconds
    && is_text "V1_EXPIRING" (lookup "GSI1PK" d)
    && is_text (expiry_sort expires k) (lookup "GSI1SK" d)
    && (allow_expired || ltb now expires)

-- the second test of `validate`: the numbers
unfoldable pub usage_numbers : Key → Dict → ℕ → Bool → Result Usage
usage_numbers k d now allow_expired = do
  (start, finish) ← bounds (lookup "startEpoch" d) (lookup "endEpoch" d)
  used ← require (natural (lookup "usedChecks" d)) purchase_usage_invalid
  reserved ← require (natural (lookup "reservedChecks" d)) purchase_usage_invalid
  expires ← require (natural (lookup "expiresAt" d)) purchase_usage_invalid
  raise_if (ltb paid_completed_checks (used + reserved)) purchase_usage_invalid
  access ← effective_access_end d
  raise_if (not (expiry_holds k d expires access now allow_expired)) purchase_usage_invalid
  ok (record {
    row = d;
    pointer = k;
    start_epoch = start;
    end_epoch = finish;
    access_end = access;
    used_checks = used;
    reserved_checks = reserved;
    expires_at = expires;
  })

unfoldable pub validate : Value → Value → ℕ → Bool → Result Usage
validate row pointer now allow_expired = do
  k ← valid_key pointer
  d ← usage_shape k row
  usage_numbers k d now allow_expired

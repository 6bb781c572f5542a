-- ===== src/Authority/Session/Prepare.antt =====
-- `prepare`, which issues the proof of a check, and `_close_unadmitted`, which closes a preparation
-- whose proof has expired, so that its check is known not to have started.
use amt_trust_check_radar_la.Base.{
  ℕ, ◌+◌, String, Bool, true, false, ◌&&◌, ◌||◌, not, Option, none, some, [], ◌∷◌, ◌++◌, ltb,
  str_eq, if◌then◌else◌, ◌&◌, ok, err, ◌>>=◌, ◌>>◌, raise_if, require,
}
use amt_trust_check_radar_la.Python.{
  Value, text, Dict, end, entry, get, put, lookup, value_or, natural, text_of, is_text, matches,
  hex, name_char, pad, pad_hex, take,
}
use amt_trust_check_radar_la.Dynamo.{
  Key, equals, above, both, not_exists, assign, Action, condition_check, put_item, update,
}
use amt_trust_check_radar_la.Authority.Policy.{
  Result, input_rejected, check_id_conflict, policy_configuration_unavailable,
  transaction_uncertain, uncaught,
}
use amt_trust_check_radar_la.Authority.Usage.Row.{number}
use amt_trust_check_radar_la.Authority.Grant.{Grant, grant}
use amt_trust_check_radar_la.Authority.Session.Settings.{Settings}
use amt_trust_check_radar_la.Authority.Session.Store.{
  Db, Env, Commit, mac, partition, assert_account, Device, device, account_conditions,
  authority_conditions,
}
use amt_trust_check_radar_la.Authority.Session.Token.{token_parts, signed, verify_token, attempt}
use amt_trust_check_radar_la.Authority.Session.Admit.{
  same_payload, receipt_public, check_key, prepare_key, versioned, text_or_null, retention_deadline,
}

-- what a preparation is asked for
pub record Preparation : Type 0 where
  pub account : Result String
  pub headers : Value
  pub payload : Dict
  pub digest : String → Result String
  pub preparation_id : String
  pub client_check_id : Option String
  pub count_attempt : Bool

-- `client_check_id or preparation_id`
abbrev owner_id : Preparation → String
owner_id r = elim r.client_check_id [
  | none ↦ r.preparation_id
  | some client ↦ if str_eq client "" then r.preparation_id else client
]

-- the scope of an entry point that is no URL
abbrev pub scope_field : Dict → Dict → Dict
scope_field payload row =
    let first =
      if is_text "message" (lookup "entryPoint" payload)
      then put "projectionScope" (text "sanitized_message") row
      else row in
    if is_text "recovery" (lookup "entryPoint" payload)
    then put "projectionScope" (text "recovery_clarification") first
    else first

-- the row of a preparation, before what its entry point and its transport add
unfoldable pub open_row : Settings → String → Preparation → String → String → ℕ → Dict
open_row s part r digest check_id now = entry "PK" (text part) (
    entry "SK" (text ("PREPARE#" & owner_id r)) (
      entry "recordType" (text "V1_PREPARATION") (
        entry "payloadHmac" (text digest) (
          entry "checkId" (text check_id) (
            entry "admissionState" (text "OPEN") (
              entry "clientCheckId" (text_or_null r.client_check_id) (
                entry "expiresAt" (number (retention_deadline s now)) (
                  entry "GSI1PK" (text "V1_EXPIRING") (
                    entry "GSI1SK"
                      (text
                        (pad 12 (retention_deadline s now) & "#" & part & "#PREPARE#" & owner_id r))
                      end)))))))))

unfoldable pub preparation_row : Settings → String → Preparation → String → String → ℕ → Dict
preparation_row s part r digest check_id now =
    versioned r.payload (scope_field r.payload (open_row s part r digest check_id now))

-- the proof of a check, which expires
unfoldable pub new_check_id : Env → String → String → String → ℕ → Result String
new_check_id e account digest nonce expiry = do
  raise_if (not (matches "" hex 16 16 nonce) || ltb 4294967295 expiry)
      policy_configuration_unavailable
  m ← mac e e.settings.active_key_id "operation" (signed account digest expiry nonce)
  ok ("v1_" & e.settings.active_key_id & "_" & pad_hex 8 expiry & "_" & nonce & "_" & take 24 m)

-- the proof that a preparation with the same payload issued before, while it is valid
unfoldable pub prepared_before : Env → String → String → ℕ → Dict → Result String
prepared_before e account digest now prior = do
  check_id ← require (text_of (lookup "checkId" prior)) uncaught
  verify_token e account check_id digest now false
  ok check_id

-- A transaction that did not return is looked up.
unfoldable pub recover_preparation :
    Env → String → String → ℕ → Db → Option Dict → Result (String × Db)
recover_preparation e account digest now db none = err transaction_uncertain
recover_preparation e account digest now db (some prior) = do
  raise_if (not (same_payload prior digest)) transaction_uncertain
  check_id ← prepared_before e account digest now prior
  ok (check_id, db)

abbrev after_preparation :
    Env → String → String → Key → String → ℕ → Bool × Db → Result (String × Db)
after_preparation e account digest k check_id now (true, db) = ok (check_id, db)
after_preparation e account digest k check_id now (false, db) =
    recover_preparation e account digest now db (db.authority k)

abbrev pub prepare_new :
    Env
    → Commit
    → Db
    → String
    → String
    → Preparation
    → String
    → Device
    → Grant
    → String
    → ℕ
    → Option Dict
    → Result (String × Db)
prepare_new e commit db account part r digest d g nonce now (some prior) = do
  raise_if (not (same_payload prior digest)) check_id_conflict
  check_id ← prepared_before e account digest now prior
  ok (check_id, db)
prepare_new e commit db account part r digest d g nonce now none = do
  check_id ← new_check_id e account digest nonce (now + e.settings.operation_validity_seconds)
  conditions ← authority_conditions e db account part d g now
  let row = preparation_row e.settings part r digest check_id now
  after_preparation e account digest (prepare_key part (owner_id r)) check_id now
      (commit db (conditions ++ (put_item e.settings.authority_table row (not_exists "PK") ∷ [])))

unfoldable pub prepare : Env → Commit → Db → Preparation → String → ℕ → Result (String × Db)
prepare e commit db r nonce now = do
  account ← r.account
  assert_account db account
  part ← partition e account e.settings.active_key_id
  counted ← if r.count_attempt then attempt e commit db account part now else ok db
  d ← device counted r.headers account
  g ← grant counted.authority part now false
  digest ← r.digest e.settings.active_key_id
  raise_if (not (matches "" name_char 1 64 r.preparation_id)) input_rejected
  prepare_new e commit counted account part r digest d g nonce now
      (counted.authority (prepare_key part (owner_id r)))

-- the answer about a check that was not admitted
pub data Closing : Type 0 where
  unknown : Closing
  receipt : Dict → Closing
  not_started : String → Value → Closing

unfoldable pub is_preparation : String → String → Dict → ℕ → Bool
is_preparation client proof row now =
    is_text "V1_PREPARATION" (lookup "recordType" row)
    && is_text client (lookup "clientCheckId" row)
    && is_text proof (lookup "checkId" row)
    && elim (natural (lookup "expiresAt" row)) [ none ↦ false | some n ↦ ltb now n ]
    && (is_text "OPEN" (lookup "admissionState" row)
        || is_text "CLOSED" (lookup "admissionState" row))

unfoldable pub close_action : String → String → String → String → Dict → ℕ → Action
close_action table part client proof row now =
    update table (prepare_key part client) (assign "admissionState" (text "CLOSED") ∷ []) (
      both (equals "recordType" (text "V1_PREPARATION")) (
        both (equals "admissionState" (lookup "admissionState" row)) (
          both (equals "checkId" (text proof)) (
            both (equals "payloadHmac" (lookup "payloadHmac" row)) (
              both (equals "clientCheckId" (text client))
                (both (equals "expiresAt" (lookup "expiresAt" row)) (above "expiresAt" now)))))))

abbrev retained_receipt : Option Dict → ℕ → Option Dict
retained_receipt none now = none
retained_receipt (some row) now =
    elim (natural (value_or (get "retentionDeadlineEpoch" row) (number 0))) [
      | none ↦ none
      | some n ↦ if ltb now n then some row else none
    ]

-- A close that did not return says nothing, unless the check has a receipt after all.
unfoldable pub unclosed : Env → String → String → ℕ → Db → Option Dict → Result (Closing × Db)
unclosed e account proof now db none = err transaction_uncertain
unclosed e account proof now db (some latest) = do
  digest ← require (text_of (lookup "payloadHmac" latest)) uncaught
  verify_token e account proof digest now true
  ok (receipt (receipt_public latest), db)

abbrev after_close :
    Env → String → String → String → String → Dict → ℕ → Bool × Db → Result (Closing × Db)
after_close e account part client proof row now (true, db) =
    ok (not_started client (lookup "expiresAt" row), db)
after_close e account part client proof row now (false, db) =
    unclosed e account proof now db (retained_receipt (db.authority (check_key part proof)) now)

unfoldable pub close_preparation :
    Env → Commit → Db → String → String → String → String → Dict → ℕ → Result (Closing × Db)
close_preparation e commit db account part client proof row now = do
  digest ← require (text_of (lookup "payloadHmac" row)) uncaught
  verify_token e account proof digest now true
  conditions ← account_conditions e db account
  after_close e account part client proof row now (
      commit db (
        conditions
        ++ (condition_check e.settings.authority_table (check_key part proof) (not_exists "PK")
            ∷ close_action e.settings.authority_table part client proof row now
            ∷ [])))

abbrev pub closable : String → String → Option Dict → ℕ → Option Dict
closable client proof none now = none
closable client proof (some row) now =
    if is_preparation client proof row now then some row else none

-- a preparation that may be closed, if the proof has expired
unfoldable pub close_named :
    Env → Commit → Db → String → String → String → ℕ → Result (Closing × Db)
close_named e commit db account proof client now = do
  t ← token_parts e proof
  part ← partition e account t.key_id
  elim (if ltb now t.expiry
      then none
      else closable client proof (db.authority (prepare_key part client)) now) [
        | none ↦ ok (unknown, db)
        | some row ↦ close_preparation e commit db account part client proof row now
      ]

-- `_close_unadmitted`, for a client id that is a text
unfoldable pub close_unadmitted :
    Env → Commit → Db → String → String → String → ℕ → Result (Closing × Db)
close_unadmitted e commit db account proof client now =
    if not (matches "" name_char 1 64 client)
    then ok (unknown, db)
    else close_named e commit db account proof client now

-- ===== src/Authority/Session/Admit.antt =====
-- `admit`: the receipt of a check, its reservation, and what a transaction that did not return leaves.
-- The account is what the verified JWT names, and `digest` is `_payload`, which validates the
-- payload and authenticates it; neither settlement history nor the operations producer is enabled.
use amt_trust_check_radar_la.Base.{
  ℕ, ◌+◌, String, Bool, true, false, not, Option, none, some, List, [], ◌∷◌, ◌++◌, str_eq,
  if◌then◌else◌, ◌&◌, ok, err, ◌>>=◌, ◌>>◌, raise_if, require,
}
use amt_trust_check_radar_la.Python.{
  pos, Value, null, bool, text, dict, Dict, end, entry, get, put, lookup, value_or, text_of,
  dict_of, is_text, is_number, pad,
}
use amt_trust_check_radar_la.Dynamo.{
  Key, equals, above, below, both, either, not_exists, add, discard, Action, condition_check,
  put_item, update,
}
use amt_trust_check_radar_la.Authority.Policy.{
  Result, owner_policy, check_id_conflict, key_rotation_pending, uncaught,
}
use amt_trust_check_radar_la.Authority.Usage.Row.{number, effective_access_end}
use amt_trust_check_radar_la.Authority.Usage.Counters.{paired_counter_actions}
use amt_trust_check_radar_la.Authority.Grant.{Basis, paid, Allowance, Grant, grant}
use amt_trust_check_radar_la.Authority.Session.Settings.{Settings}
use amt_trust_check_radar_la.Authority.Session.Store.{
  Db, Env, Commit, partition, assert_account, device, authority_conditions,
}
use amt_trust_check_radar_la.Authority.Session.Token.{
  Token, token_parts, verify_token, attempt, transaction_error,
}

-- what an admission is asked for
pub record Request : Type 0 where
  pub account : Result String
  pub headers : Value
  pub payload : Dict
  pub digest : String → Result String
  pub check_id : String
  pub client_check_id : Option String
  pub count_attempt : Bool

-- `secrets.token_hex(16)` is `execution_token`
pub data Admission : Type 0 where
  replayed : Dict → Admission
  admitted : String → Dict → Admission

-- the transport version of a payload or a receipt, kept only where it is there and true
abbrev is_truthy : Value → Bool
is_truthy null = false
is_truthy (bool b) = b
is_truthy (text s) = not (str_eq s "")
is_truthy (dict end) = false
is_truthy v = not (is_number 0 v)

abbrev pub copy_truthy : String → Dict → Dict → Dict
copy_truthy k from row = let v = lookup k from in if is_truthy v then put k v row else row

-- a field of the public receipt that is there only if the row has it
abbrev copy_if_there : String → Option Value → Dict → Dict
copy_if_there k none d = d
copy_if_there k (some v) d = entry k v d

-- `_receipt_public`
unfoldable pub receipt_public : Dict → Dict
receipt_public row = copy_if_there "urlTransportVersion" (get "urlTransportVersion" row) (
    copy_if_there "recoveryTransportVersion" (get "recoveryTransportVersion" row) (
      copy_if_there "messageTransportVersion" (get "messageTransportVersion" row) (
        entry "checkId" (lookup "checkId" row) (
          entry "clientCheckId" (lookup "clientCheckId" row) (
            entry "projectionScope" (lookup "projectionScope" row) (
              entry "state" (lookup "state" row) (
                entry "chargedChecks" (lookup "chargedChecks" row) (
                  entry "receiptId" (lookup "receiptId" row) (
                    entry "processingOutcome" (lookup "processingOutcome" row) (
                      entry "resultSummary" (lookup "resultSummary" row) (
                        entry "assessmentEpoch" (lookup "assessmentEpoch" row) (
                          entry "expiresAt"
                            (value_or (get "retentionDeadlineEpoch" row) (lookup "expiresAt" row))
                            end))))))))))))

abbrev pub check_key : String → String → Key
check_key part check_id = record { pk = part; sk = "CHECK#" & check_id }

abbrev pub inflight_key : String → Key
inflight_key part = record { pk = part; sk = "INFLIGHT" }

abbrev pub prepare_key : String → String → Key
prepare_key part client = record { pk = part; sk = "PREPARE#" & client }

abbrev pub text_or_null : Option String → Value
text_or_null none = null
text_or_null (some s) = text s

abbrev period_field : String → Option Allowance → Value
period_field k none = null
period_field k (some a) = lookup k a.row

abbrev pub settle_by : Settings → ℕ → ℕ
settle_by s now = now + s.worker_settlement_seconds

abbrev pub retention_deadline : Settings → ℕ → ℕ
retention_deadline s now = now + s.receipt_retention_seconds

-- the new receipt, before what its basis and its transport add
unfoldable pub receipt_row :
    Settings → String → Request → String → Value → Grant → String → ℕ → Dict
receipt_row s part r digest scope g execution_token now = entry "PK" (text part) (
    entry "SK" (text ("CHECK#" & r.check_id)) (
      entry "recordType" (text "V1_CHECK_RECEIPT") (
        entry "checkId" (text r.check_id) (
          entry "payloadHmac" (text digest) (
            entry "clientCheckId" (text_or_null r.client_check_id) (
              entry "projectionScope" scope (
                entry "state" (text "ADMITTED") (
                  entry "chargedChecks" null (
                    entry "receiptId" null (
                      entry "processingOutcome" null (
                        entry "basis" (lookup "basis" g.row) (
                          entry "grantRevision" (period_field "grantRevision" g.period) (
                            entry "authorityRevision" (lookup "revision" g.row) (
                              entry "policyVersion" (text owner_policy) (
                                entry "periodSK" (period_field "SK" g.period) (
                                  entry "executionToken" (text execution_token) (
                                    entry "settleByEpoch" (number (settle_by s now)) (
                                      entry "GSI1PK" (text "V1_PENDING") (
                                        entry "GSI1SK"
                                          (text (
                                            pad 12 (settle_by s now)
                                            & "#"
                                            & part
                                            & "#"
                                            & r.check_id))
                                          (entry "retentionDeadlineEpoch"
                                            (number (retention_deadline s now))
                                            end))))))))))))))))))))

-- The receipt of a paid check names the purchase and the end of its access window.
unfoldable pub basis_fields : Basis → Option Allowance → Dict → Result Dict
basis_fields paid (some a) row = do
  purchase ← require (dict_of (lookup "purchaseUsageKey" a.row)) uncaught
  access ← effective_access_end a.row
  ok (put "accessUntilEpoch" (number access) (put "purchaseUsageKey" (dict purchase) row))
basis_fields _ _ row = ok row

abbrev pub versioned : Dict → Dict → Dict
versioned payload row =
    copy_truthy "recoveryTransportVersion" payload (
      copy_truthy "messageTransportVersion" payload (copy_truthy "urlTransportVersion" payload row))

unfoldable pub new_receipt : Settings → String → Request → String → Grant → String → ℕ → Result Dict
new_receipt s part r digest g execution_token now = do
  target ← require (dict_of (lookup "target" r.payload)) uncaught
  scope ← require (get "scope" target) uncaught
  row ← basis_fields g.basis g.period (receipt_row s part r digest scope g execution_token now)
  ok (versioned r.payload row)

-- the reservation of a check of a trial: the counters are as they were read
unfoldable pub trial_reservation : String → Key → Allowance → ℕ → Action
trial_reservation table k a now = update table k (add "reservedChecks" (pos 1) ∷ []) (
    both (equals "usedChecks" (lookup "usedChecks" a.row)) (
      both (equals "reservedChecks" (lookup "reservedChecks" a.row)) (
        both (equals "grantRevision" (lookup "grantRevision" a.row))
          (both (equals "policyVersion" (text owner_policy)) (above "endEpoch" now)))))

-- the reservation of one check in the period that the grant rests on
unfoldable pub reservation : Env → Db → String → Basis → Option Allowance → ℕ → Result (List Action)
reservation e db part b none now = ok []
reservation e db part paid (some a) now = do
  sk ← require (text_of (lookup "SK" a.row)) uncaught
  paired_counter_actions e.settings.authority_table db.authority (record { pk = part; sk = sk })
      a.row (pos 1) (pos 0) now false
reservation e db part _ (some a) now = do
  sk ← require (text_of (lookup "SK" a.row)) uncaught
  ok (trial_reservation e.settings.authority_table (record { pk = part; sk = sk }) a now ∷ [])

-- The preparation that the client names is still open for this check.
unfoldable pub preparation_check : String → String → Request → String → ℕ → List Action
preparation_check table part r digest now = elim r.client_check_id [
  | none ↦ []
  | some client ↦
      condition_check table (prepare_key part client) (
        both (equals "recordType" (text "V1_PREPARATION")) (
          both (equals "admissionState" (text "OPEN")) (
            both (equals "checkId" (text r.check_id)) (
              both (equals "payloadHmac" (text digest))
                (both (equals "clientCheckId" (text client)) (above "expiresAt" now))))))
      ∷ []
]

unfoldable pub inflight_action : Settings → String → Action
inflight_action s part =
    update s.authority_table (inflight_key part)
      (discard "expiresAt" ∷ add "activeCount" (pos 1) ∷ [])
      (either (not_exists "activeCount") (below "activeCount" s.max_inflight))

-- the receipt and the one transaction of an admission
unfoldable pub admission :
    Env → Db → String → String → Request → String → String → ℕ → Result (Dict × List Action)
admission e db account part r digest execution_token now = do
  d ← device db r.headers account
  g ← grant db.authority part now false
  row ← new_receipt e.settings part r digest g execution_token now
  conditions ← authority_conditions e db account part d g now
  reserve ← reservation e db part g.basis g.period now
  ok (
    row,
    conditions
        ++ preparation_check e.settings.authority_table part r digest now
        ++ reserve
        ++ (inflight_action e.settings part
            ∷ put_item e.settings.authority_table row (not_exists "PK")
            ∷ []),
  )

-- `hmac.compare_digest(str(row.get('payloadHmac', '')), digest)`; the field is a text
abbrev pub same_payload : Dict → String → Bool
same_payload row digest = is_text digest (value_or (get "payloadHmac" row) (text ""))

abbrev refused : Settings → String → Db → Result (Admission × Db)
refused s part db =
    err (transaction_error "activeCount" s.max_inflight (db.authority (inflight_key part)))

-- the receipt of the check, if another transaction has put it
unfoldable pub recovered : Settings → String → String → Db → Option Dict → Result (Admission × Db)
recovered s part digest db none = refused s part db
recovered s part digest db (some prior) =
    if same_payload prior digest
    then ok (replayed (receipt_public prior), db)
    else refused s part db

-- A transaction that did not return is looked up by its check id, never sent again.
unfoldable pub after_admission :
    Settings → String → String → String → String → Dict → Bool × Db → Result (Admission × Db)
after_admission s part check_id digest execution_token row (true, db) =
    ok (admitted execution_token (receipt_public row), db)
after_admission s part check_id digest execution_token row (false, db) =
    recovered s part digest db (db.authority (check_key part check_id))

-- A check that was admitted before is answered with its receipt, if it had the same payload.
unfoldable pub replay : Dict → String → Db → Result (Admission × Db)
replay prior digest db = do
  raise_if (not (same_payload prior digest)) check_id_conflict
  ok (replayed (receipt_public prior), db)

abbrev pub admit_new :
    Env
    → Commit
    → Db
    → String
    → String
    → Token
    → Request
    → String
    → String
    → ℕ
    → Option Dict
    → Result (Admission × Db)
admit_new e commit db account part t r digest execution_token now (some prior) =
    replay prior digest db
admit_new e commit db account part t r digest execution_token now none = do
  raise_if (not (str_eq t.key_id e.settings.active_key_id)) key_rotation_pending
  (row, items) ← admission e db account part r digest execution_token now
  after_admission e.settings part r.check_id digest execution_token row (commit db items)

unfoldable pub admit : Env → Commit → Db → Request → String → ℕ → Result (Admission × Db)
admit e commit db r execution_token now = do
  account ← r.account
  assert_account db account
  t ← token_parts e r.check_id
  part ← partition e account t.key_id
  counted ← if r.count_attempt then attempt e commit db account part now else ok db
  digest ← r.digest t.key_id
  verify_token e account r.check_id digest now false
  admit_new e commit counted account part t r digest execution_token now
      (counted.authority (check_key part r.check_id))

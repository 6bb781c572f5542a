-- ===== src/Authority/Session/Settle.antt =====
-- `_settle`: the one transaction that closes an admitted check, and what a worker is told when it
-- was closed before. `summary` is the validated result summary of the receipt, fresh at the time of
-- the settlement; neither settlement history nor the operations producer
-- is enabled, but a receipt may carry the metadata of an earlier producer.
use amt_trust_check_radar_la.Base.{
  ℕ, min, String, Bool, true, false, ◌&&◌, not, Option, none, some, List, [], ◌∷◌, ◌++◌, any,
  str_eq, if◌then◌else◌, ◌&◌, ok, err, ◌>>=◌, ◌>>◌, raise_if, require,
}
use amt_trust_check_radar_la.Python.{
  pos, negsuc, Value, text, Dict, get, lookup, value_or, integral, natural, text_of, is_text, pad,
  take, at_most, after, has_key,
}
use amt_trust_check_radar_la.Dynamo.{
  Key, Condition, always, equals, above, at_least, both, assign, add, Action, update,
}
use amt_trust_check_radar_la.Authority.Policy.{
  Result, owner_policy, reconciliation_required, execution_owner_mismatch, outcome_unsupported,
  operation_pending, operations_receipt_invalid, transaction_uncertain, uncaught,
}
use amt_trust_check_radar_la.Authority.Usage.Row.{number}
use amt_trust_check_radar_la.Authority.Usage.Pending.{metadata_of}
use amt_trust_check_radar_la.Authority.Usage.Counters.{period_for_receipt, paired_counter_actions}
use amt_trust_check_radar_la.Authority.Session.Settings.{Settings}
use amt_trust_check_radar_la.Authority.Session.Store.{
  Db, Env, Commit, mac, partition, assert_account, account_conditions,
}
use amt_trust_check_radar_la.Authority.Session.Token.{Token, token_parts, verify_token}
use amt_trust_check_radar_la.Authority.Session.Admit.{receipt_public, check_key, inflight_key}

abbrev pub outcomes : List String
outcomes =
    "inconclusive" ∷ "complete" ∷ "partial" ∷ "failed" ∷ "blocked" ∷ "invalid_input" ∷ "unsupported"
    ∷ "unavailable" ∷ []

-- what a worker settles; a recovery of an expired lease has no execution token
pub record Settlement : Type 0 where
  pub account : String
  pub check_id : String
  pub execution_token : Option String
  pub outcome : String

abbrev pub is_recovery : Settlement → Bool
is_recovery w = elim w.execution_token [ none ↦ true | some t ↦ false ]

-- Only a complete outcome is charged, and complimentary access never is.
unfoldable pub charge : String → Dict → ℕ
charge outcome row =
    if str_eq outcome "complete" && not (is_text "complimentary" (lookup "basis" row)) then 1 else 0

abbrev deadline_value : Dict → Value
deadline_value row =
    value_or (get "retentionDeadlineEpoch" row) (value_or (get "expiresAt" row) (number 0))

-- the receipt, while it is retained
unfoldable pub retained : Option Dict → ℕ → Result Dict
retained row now = do
  r ← require row reconciliation_required
  deadline ← require (integral (deadline_value r)) uncaught
  raise_if (at_most deadline now) reconciliation_required
  ok r

-- `str(row.get('executionToken', '')) == execution_token`; the field is a text
abbrev pub token_matches : Option String → Option Value → Bool
token_matches none found = true
token_matches (some t) found = is_text t (value_or found (text ""))

unfoldable pub owns : Settlement → Dict → Bool
owns w row = token_matches w.execution_token (get "executionToken" row)

-- the token that the receipt must still carry, and that it is time for this settlement
unfoldable pub in_time : Settlement → Dict → ℕ → Result Value
in_time w row now = do
  settle_by ← require (integral (value_or (get "settleByEpoch" row) (number 0))) uncaught
  elim w.execution_token [
    | none ↦ do
      raise_if (after settle_by now) operation_pending
      require (get "executionToken" row) uncaught
    | some t ↦ do raise_if (not (after settle_by now)) reconciliation_required; ok (text t)
  ]

unfoldable pub trial_release : String → Key → Dict → ℕ → Action
trial_release table k row charged =
    update table k (add "reservedChecks" (negsuc 0) ∷ add "usedChecks" (pos charged) ∷ []) (
      both (at_least "reservedChecks" 1) (
        both (equals "grantRevision" (lookup "grantRevision" row))
          (equals "policyVersion" (lookup "policyVersion" row))))

-- the release of a check that a funded period paid for
unfoldable pub paid_release : Env → Db → String → Dict → ℕ → ℕ → Result (List Action)
paid_release e db part row charged now = do
  p ← period_for_receipt db.authority part row
  sk ← require (text_of (lookup "periodSK" row)) uncaught
  paired_counter_actions e.settings.authority_table db.authority (record { pk = part; sk = sk })
      p.row (negsuc 0) (pos charged) now false

-- `elif row['periodSK']`
abbrev pub released : Env → String → Dict → ℕ → Option String → Result (List Action)
released e part row charged none = ok []
released e part row charged (some sk) =
    if str_eq sk ""
    then ok []
    else ok
        (trial_release e.settings.authority_table (record { pk = part; sk = sk }) row charged ∷ [])

-- the release of the reservation, with its charge
unfoldable pub release : Env → Db → String → Dict → ℕ → ℕ → Result (List Action)
release e db part row charged now =
    if is_text "paid" (lookup "basis" row)
    then paid_release e db part row charged now
    else released e part row charged (text_of (lookup "periodSK" row))

unfoldable pub inflight_release : Settings → String → Action
inflight_release s part =
    update s.authority_table (inflight_key part) (add "activeCount" (negsuc 0) ∷ [])
      (at_least "activeCount" 1)

-- the time of a settlement against `settleByEpoch`
abbrev due_condition : Settlement → ℕ → Condition
due_condition w now = elim w.execution_token [
  | none ↦ Condition.at_most "settleByEpoch" now
  | some t ↦ above "settleByEpoch" now
]

-- `f'{int(deadline):012d}'`
abbrev sort_of : ℕ → String
sort_of deadline = pad 12 deadline

-- the earlier deadline of the metadata that an operations producer left on the receipt
unfoldable pub operations_due : Dict → ℕ → Result ℕ
operations_due row deadline = if not (has_key "operationsReceipt" row) then ok deadline else do
  m ← metadata_of operations_receipt_invalid (lookup "operationsReceipt" row)
  ok (min deadline m.expires_at)

-- The metadata must be as it was read; its numbers equal those of the row.
unfoldable pub captured_condition : Dict → Condition
captured_condition row =
    if has_key "operationsReceipt" row
    then equals "operationsReceipt" (lookup "operationsReceipt" row)
    else always

-- `due` is the time in the expiry index
unfoldable pub settle_action :
    Settings → String → Settlement → Dict → ℕ → String → Value → ℕ → Value → ℕ → Action
settle_action s part w row charged receipt_id token due summary now =
    update s.authority_table (check_key part w.check_id)
      (assign "state" (text "SETTLED")
        ∷ assign "chargedChecks" (number charged)
        ∷ assign "receiptId" (text receipt_id)
        ∷ assign "processingOutcome" (text w.outcome)
        ∷ assign "expiresAt" (lookup "retentionDeadlineEpoch" row)
        ∷ assign "resultSummary" summary
        ∷ assign "assessmentEpoch" (number now)
        ∷ assign "GSI1PK" (text "V1_EXPIRING")
        ∷ assign "GSI1SK" (text (sort_of due & "#" & part & "#CHECK#" & w.check_id))
        ∷ [])
      (both (equals "state" (text "ADMITTED")) (
        both (equals "executionToken" token) (
          both (equals "policyVersion" (text owner_policy))
            (both (due_condition w now) (captured_condition row)))))

-- the transaction of a settlement
unfoldable pub settlement :
    Env
    → Db
    → (Dict → Result Value)
    → String
    → Token
    → Settlement
    → Dict
    → Value
    → ℕ
    → Result (List Action)
settlement e db summary part t w row token now = do
  checked ← summary row
  m ← mac e t.key_id "receipt" w.check_id
  conditions ← account_conditions e db w.account
  freed ← release e db part row (charge w.outcome row) now
  deadline ← require (natural (lookup "retentionDeadlineEpoch" row)) uncaught
  due ← operations_due row deadline
  ok (
      conditions
      ++ freed
      ++ (inflight_release e.settings part
          ∷ settle_action e.settings part w row (charge w.outcome row) (take 32 m) token due checked
              now
          ∷ []))

-- What the check's row says after the transaction; the receipt is there, as it was read before.
abbrev public_now : Option Dict → Db → Result (Dict × Db)
public_now none db = err uncaught
public_now (some row) db = ok (receipt_public row, db)

unfoldable pub after_settlement : String → String → Bool × Db → Result (Dict × Db)
after_settlement part check_id (true, db) = public_now (db.authority (check_key part check_id)) db
after_settlement part check_id (false, db) = elim (db.authority (check_key part check_id)) [
  | none ↦ err transaction_uncertain
  | some latest ↦
      if is_text "SETTLED" (lookup "state" latest)
      then ok (receipt_public latest, db)
      else err transaction_uncertain
]

abbrev pub is_settled : Dict → Bool
is_settled row = is_text "SETTLED" (lookup "state" row)

unfoldable pub settle_open :
    Env
    → Commit
    → Db
    → (Dict → Result Value)
    → String
    → Token
    → Settlement
    → Dict
    → ℕ
    → Result (Dict × Db)
settle_open e commit db summary part t w row now = do
  token ← in_time w row now
  items ← settlement e db summary part t w row token now
  after_settlement part w.check_id (commit db items)

unfoldable pub settle :
    Env → Commit → Db → (Dict → Result Value) → Settlement → ℕ → Result (Dict × Db)
settle e commit db summary w now = do
  assert_account db w.account
  t ← token_parts e w.check_id
  part ← partition e w.account t.key_id
  row ← retained (db.authority (check_key part w.check_id)) now
  digest ← require (text_of (lookup "payloadHmac" row)) uncaught
  verify_token e w.account w.check_id digest now true
  raise_if (not (owns w row)) execution_owner_mismatch
  raise_if (not (any (str_eq w.outcome) outcomes)) outcome_unsupported
  if is_settled row
      then ok (receipt_public row, db)
      else settle_open e commit db summary part t w row now

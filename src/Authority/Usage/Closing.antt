-- ===== src/Authority/Usage/Closing.antt =====
-- `due_reservation_actions` of purchase_usage.py: a purchase whose access is past its deadline is erased
-- together with the reservations that are still open, each of which is closed without a charge. The
-- query of the account's checks, the read of the counter of open checks, SHA-256 and `validate_capture`
-- are parameters. The numbers that the table returns are Decimals. The period is one that was read
-- under its key.
use amt_trust_check_radar_la.Base.{
  ℕ, suc, zero, ◌+◌, ◌-◌, min, String, ◌&◌, Bool, true, false, ◌&&◌, ◌||◌, not, Option, none, some,
  List, [], ◌∷◌, ◌++◌, ltb, leb, ◌==◌, str_eq, length, if◌then◌else◌, ok, ◌>>=◌, ◌>>◌, raise_if,
  require,
}
use amt_trust_check_radar_la.Python.{
  ℤ, pos, of_ℤ, Value, int, decimal, text, dict, Dict, end, entry, lookup, put, remove, natural,
  text_of, is_text, has_key, same_keys, matches, name_char, pad, take,
}
use amt_trust_check_radar_la.Dynamo.{
  Key, key_dict, Condition, both, not_exists, Action, delete, put_item,
}
use amt_trust_check_radar_la.Authority.Policy.{
  Result, retention_seconds, purchase_usage_invalid, purchase_usage_reconciliation_required,
}
use amt_trust_check_radar_la.Authority.Usage.Row.{number, new_period_usage, validate}
use amt_trust_check_radar_la.Authority.Usage.Actions.{Period, validate_period, exact_condition}
use amt_trust_check_radar_la.Authority.Usage.Counters.{agrees}
use amt_trust_check_radar_la.Authority.Usage.Pending.{
  Metadata, CapturedSource, Receipt, pending_metadata,
}
use amt_trust_check_radar_la.Authority.Usage.Open.{recovery_version, is_open_of, pending_receipt}

abbrev recovery_policy : String
recovery_policy = "recovery-clarification-2026-09-21-v1"

-- one response of the query; `none` where no page follows
pub record Page : Type 0 where
  pub items : List Dict
  pub last_key : Option Dict

-- `usage(client, 'failed')` of shared_recovery_contract/usage.py, which checks its own text
unfoldable pub recovery_usage : Value → Result Dict
recovery_usage client = do
  check ← require (text_of client) purchase_usage_reconciliation_required
  raise_if (not (matches "" name_char 1 64 check)) purchase_usage_reconciliation_required
  ok (
      entry "schemaVersion" (number 1) (
        entry "kind" (text "recovery_usage") (
          entry "checkId" (text check) (
            entry "policyVersion" (text recovery_policy) (
              entry "playbookVersion" (text "recovery-playbook-1.0") (
                entry "processingOutcome" (text "failed")
                  (entry "contentDisposition" (text "not_retained") end)))))))

-- the receipt of an open check that failed
unfoldable pub failed_row : (String → String) → Key → Receipt → Dict
failed_row sha256 k r = put "GSI1SK" (text (pad 12 r.deadline & "#" & k.pk & "#" & r.sk)) (
    put "GSI1PK" (text "V1_EXPIRING") (
      put "expiresAt" (lookup "retentionDeadlineEpoch" r.row) (
        put "receiptId" (text ("expired_" & take 32 (sha256 (k.pk & "\0" & r.check_id)))) (
          put "processingOutcome" (text "failed")
            (put "chargedChecks" (number 0) (put "state" (text "SETTLED") r.row))))))

unfoldable pub with_summary : Receipt → Dict → ℕ → Result Dict
unfolding recovery_usage
with_summary r settled now =
    if not (str_eq r.scope "recovery_clarification") then ok settled else do
      raise_if (not (is_text recovery_version (lookup "recoveryTransportVersion" r.row)))
          purchase_usage_reconciliation_required
      summary ← recovery_usage (lookup "clientCheckId" r.row)
      ok (put "assessmentEpoch" (number now) (put "resultSummary" (dict summary) settled))

abbrev pub without_operations : Dict → Dict
without_operations d =
    remove "operationsProjection"
      (remove "operationsTerminalReasonCode" (remove "operationsReceipt" d))

-- metadata that is still live gives the reason of the end, other metadata is dropped
unfoldable pub with_operations : Key → Receipt → Option Metadata → Dict → ℕ → Dict
with_operations k r none settled now =
    if has_key "operationsProjection" r.row then without_operations settled else settled
with_operations k r (some m) settled now =
    if ltb now m.expires_at
    then put "GSI1SK" (text (pad 12 (min r.deadline m.expires_at) & "#" & k.pk & "#" & r.sk)) (
        put "assessmentEpoch" (number now)
          (put "operationsTerminalReasonCode" (text "OPERATION_EXPIRED") settled))
    else without_operations settled

-- every attribute that was read, and no projection if the receipt may get one
unfoldable pub receipt_condition : Receipt → Condition
receipt_condition r =
    if has_key "operationsReceipt" r.row && not (has_key "operationsProjection" r.row)
    then both (exact_condition r.row) (not_exists "operationsProjection")
    else exact_condition r.row

-- the tables, with their name, and what else the code calls
pub record Remote : Type 0 where
  pub table : String
  pub query : Option Dict → Page
  pub get_item : Key → Option Dict
  pub sha256 : String → String
  pub validate_capture : Value → Option CapturedSource

module _ (e : Remote) where
  unfoldable pub close_receipt : Key → ℕ → Receipt → Result Action
  unfolding failed_row with_summary with_operations receipt_condition
  close_receipt k now r =
      if leb r.deadline now
      then ok (delete e.table (record { pk = k.pk; sk = r.sk }) (receipt_condition r))
      else do
        settled ← with_summary r (failed_row e.sha256 k r) now
        m ← pending_metadata e.validate_capture r now
        ok (put_item e.table (with_operations k r m settled now) (receipt_condition r))

  unfoldable pub close_all : Key → ℕ → List Receipt → Result (List Action)
  close_all k now [] = ok []
  close_all k now (r ∷ rs) = do a ← close_receipt k now r; rest ← close_all k now rs; ok (a ∷ rest)

  module _ (k : Key) (p : Period) (now : ℕ) where
    -- one row of a page; `pending` is what was found so far
    unfoldable pub gather_row : List Receipt → Dict → Result (List Receipt)
    gather_row pending d = if not (is_open_of k p d) then ok pending else do
      r ← pending_receipt k p d
      pending_metadata e.validate_capture r now
      raise_if (ltb p.reserved_checks (suc (length pending))) purchase_usage_reconciliation_required
      ok (pending ++ (r ∷ []))

    unfoldable pub gather_rows : List Receipt → List Dict → Result (List Receipt)
    gather_rows pending [] = ok pending
    gather_rows pending (d ∷ ds) = do more ← gather_row pending d; gather_rows more ds

    -- the loop over at most `n` pages, with the cursor that it ends with
    unfoldable pub gather_pages :
        ℕ → Option Dict → List Receipt → Result (List Receipt × Option Dict)
    gather_pages zero cursor pending = ok (pending, cursor)
    gather_pages (suc n) cursor pending = do
      more ← gather_rows pending (e.query cursor).items
      elim (e.query cursor).last_key [
        | none ↦ ok (more, none)
        | some c ↦ gather_pages n (some c) more
      ]

  abbrev pub has_next : Option Dict → Bool
  has_next none = false
  has_next (some c) = true

  -- the counter of the account's open checks, as it is after the closing
  unfoldable pub lower_inflight : Key → ℕ → Result Action
  lower_inflight k count = do
    inflight ←
        require (e.get_item (record { pk = k.pk; sk = "INFLIGHT" }))
          purchase_usage_reconciliation_required
    raise_if (not (same_keys inflight ("PK" ∷ "SK" ∷ "activeCount" ∷ [])))
        purchase_usage_reconciliation_required
    active ←
        require (natural (lookup "activeCount" inflight)) purchase_usage_reconciliation_required
    raise_if (ltb active count) purchase_usage_reconciliation_required
    ok (
        put_item e.table (put "activeCount" (decimal (pos (active - count))) inflight)
          (exact_condition inflight))

  unfoldable pub due_reservation_actions : Key → Dict → Value → ℤ → ℕ → Result (List Action)
  unfolding close_all
  due_reservation_actions k period observed_global access_until now = do
    p ← validate_period (some period)
    u ← validate observed_global (dict (key_dict p.pointer)) now true
    new_period_usage (dict (key_dict p.pointer)) (lookup "startEpoch" p.row)
        (lookup "endEpoch" p.row) (some (int access_until))
    access ← require (of_ℤ access_until) purchase_usage_invalid
    raise_if
        (ltb now (access + retention_seconds)
          || not (leb 1 p.reserved_checks && leb p.reserved_checks 16)
          || not (agrees u p))
        purchase_usage_reconciliation_required
    (pending, cursor) ← gather_pages k p now 8 none []
    raise_if (has_next cursor || not (length pending == p.reserved_checks))
        purchase_usage_reconciliation_required
    lowered ← lower_inflight k p.reserved_checks
    closed ← close_all k now pending
    ok (delete e.table p.pointer (exact_condition u.row) ∷ lowered ∷ closed)

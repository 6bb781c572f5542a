-- ===== src/Authority/Usage/Open.antt =====
-- purchase_usage.py: which rows of the account's checks `due_reservation_actions` has to close, and the
-- tests that each of them must pass.
use amt_trust_check_radar_la.Base.{
  ℕ, String, ◌&◌, Bool, true, false, ◌&&◌, ◌||◌, not, List, [], ◌∷◌, leb, ◌==◌, str_eq, ok, ◌>>=◌,
  ◌>>◌, raise_if, require,
}
use amt_trust_check_radar_la.Python.{
  Value, null, text, dict, Dict, get, lookup, value_or, natural, text_of, is_text, value_eq,
  has_key, has_keys, keys_within, mem_key, matches, hex, alnum, name_char, pad, Parts, parts, split,
}
use amt_trust_check_radar_la.Dynamo.{Key, key_dict}
use amt_trust_check_radar_la.Authority.Policy.{
  Result, owner_policy, purchase_usage_reconciliation_required,
}
use amt_trust_check_radar_la.Authority.Usage.Actions.{Period}
use amt_trust_check_radar_la.Authority.Usage.Pending.{Receipt, is_one_of, is_url_scope}

-- `_PENDING_FIELDS`
abbrev pending_fields : List String
pending_fields =
    "PK" ∷ "SK" ∷ "recordType" ∷ "checkId" ∷ "payloadHmac" ∷ "clientCheckId" ∷ "projectionScope"
    ∷ "state" ∷ "chargedChecks" ∷ "receiptId" ∷ "processingOutcome" ∷ "basis" ∷ "grantRevision"
    ∷ "authorityRevision" ∷ "policyVersion" ∷ "periodSK" ∷ "executionToken" ∷ "settleByEpoch"
    ∷ "GSI1PK" ∷ "GSI1SK" ∷ "retentionDeadlineEpoch" ∷ "purchaseUsageKey" ∷ []

-- `_PENDING_FIELDS | optional`
abbrev receipt_fields : List String
receipt_fields =
    "urlTransportVersion" ∷ "accessUntilEpoch" ∷ "messageTransportVersion"
    ∷ "recoveryTransportVersion" ∷ "governedHistoryAcceptedAtEpoch" ∷ "governedHistorySourceType"
    ∷ "governedHistoryResultType" ∷ "operationsReceipt" ∷ "operationsProjection" ∷ pending_fields

-- `v1_[A-Za-z0-9]{1,8}_[0-9a-f]{8}_[0-9a-f]{16}_[0-9a-f]{24}`; no class has an underscore
abbrev are_token_parts : Parts → Bool
are_token_parts (parts v (k ∷ x ∷ n ∷ t ∷ [])) =
    str_eq v "v1"
    && matches "" alnum 1 8 k
    && matches "" hex 8 8 x
    && matches "" hex 16 16 n
    && matches "" hex 24 24 t
are_token_parts _ = false

abbrev is_none : Value → Bool
is_none null = true
is_none _ = false

abbrev pub text_matches : (ℕ → Bool) → ℕ → ℕ → Value → Bool
text_matches cls lo hi (text s) = matches "" cls lo hi s
text_matches cls lo hi _ = false

abbrev scopes : List String
scopes = "full_url" ∷ "origin_only" ∷ "sanitized_message" ∷ "recovery_clarification" ∷ []

-- `shared_recovery_contract.constants`
abbrev pub recovery_version : String
recovery_version = "1.0.0-recovery-candidate.1"

-- the texts and pointers that a receipt of the period must carry
unfoldable is_pending_of : Key → Period → Dict → Bool
is_pending_of k p d =
    has_keys pending_fields d
    && keys_within d receipt_fields
    && is_text k.pk (lookup "PK" d)
    && is_text k.sk (lookup "periodSK" d)
    && is_text "V1_CHECK_RECEIPT" (lookup "recordType" d)
    && is_text owner_policy (lookup "policyVersion" d)
    && is_text "ADMITTED" (lookup "state" d)
    && is_text "paid" (lookup "basis" d)
    && value_eq (lookup "purchaseUsageKey" d) (dict (key_dict p.pointer))
    && text_matches hex 32 32 (lookup "executionToken" d)
    && text_matches hex 64 64 (lookup "payloadHmac" d)
    && is_none (lookup "chargedChecks" d)
    && is_none (lookup "receiptId" d)
    && is_none (lookup "processingOutcome" d)
    && is_text "V1_PENDING" (lookup "GSI1PK" d)

-- the numbers of the receipt, once they are read
unfoldable numbers_hold : Key → Period → Receipt → ℕ → ℕ → ℕ → Bool
numbers_hold k p r grant_revision authority_revision access =
    grant_revision == p.grant_revision
    && leb 1 authority_revision
    && leb r.settle_by r.deadline
    && leb p.start_epoch access
    && is_text (pad 12 r.settle_by & "#" & k.pk & "#" & r.check_id) (lookup "GSI1SK" r.row)

abbrev is_recovery : String → Bool
is_recovery scope = str_eq scope "recovery_clarification"

-- the client's id, which a check of a URL may lack
unfoldable pub client_fits : Receipt → Bool
client_fits r =
    is_none (lookup "clientCheckId" r.row)
    || text_matches name_char 1 64 (lookup "clientCheckId" r.row)

-- the attributes that name the transport of another scope
unfoldable url_fits : Receipt → Bool
url_fits r =
    not (
      is_url_scope r.scope
      && (has_key "messageTransportVersion" r.row || has_key "recoveryTransportVersion" r.row))
    && not (
        has_key "urlTransportVersion" r.row
        && (not (is_url_scope r.scope)
            || not (is_text "1.0.0-candidate.2" (lookup "urlTransportVersion" r.row))))

abbrev message_versions : List String
message_versions = "1.0.0-message-candidate.2" ∷ "1.0.0-message-candidate.3" ∷ []

unfoldable message_fits : Receipt → Bool
message_fits r = not (
    str_eq r.scope "sanitized_message"
    && (is_none (lookup "clientCheckId" r.row)
        || has_key "recoveryTransportVersion" r.row
        || not (
            is_one_of message_versions
              (value_or (get "messageTransportVersion" r.row) (text "1.0.0-message-candidate.2")))))

unfoldable pub recovery_fits : Receipt → Bool
recovery_fits r =
    not (
      is_recovery r.scope
      && (is_none (lookup "clientCheckId" r.row) || has_key "messageTransportVersion" r.row))
    && (not (is_recovery r.scope)
        || is_text recovery_version (lookup "recoveryTransportVersion" r.row))

-- the client's id and the transport versions fit the scope
unfoldable pub transports_hold : Receipt → Bool
unfolding url_fits message_fits
transports_hold r = client_fits r && url_fits r && message_fits r && recovery_fits r

unfoldable pub pending_receipt : Key → Period → Dict → Result Receipt
unfolding is_pending_of numbers_hold transports_hold
pending_receipt k p d = do
  raise_if (not (is_pending_of k p d)) purchase_usage_reconciliation_required
  grant ← require (natural (lookup "grantRevision" d)) purchase_usage_reconciliation_required
  check_id ← require (text_of (lookup "checkId" d)) purchase_usage_reconciliation_required
  raise_if
      (not (are_token_parts (split b'_' check_id) && is_text ("CHECK#" & check_id) (lookup "SK" d)))
      purchase_usage_reconciliation_required
  revision ← require (natural (lookup "authorityRevision" d)) purchase_usage_reconciliation_required
  settle ← require (natural (lookup "settleByEpoch" d)) purchase_usage_reconciliation_required
  deadline ←
      require (natural (lookup "retentionDeadlineEpoch" d)) purchase_usage_reconciliation_required
  access ←
      require (natural (value_or (get "accessUntilEpoch" d) (lookup "endEpoch" p.row)))
        purchase_usage_reconciliation_required
  scope ← require (text_of (lookup "projectionScope" d)) purchase_usage_reconciliation_required
  let r : Receipt = record {
    row = d;
    sk = "CHECK#" & check_id;
    check_id = check_id;
    scope = scope;
    settle_by = settle;
    deadline = deadline;
  }
  raise_if (not (mem_key scope scopes && numbers_hold k p r grant revision access))
      purchase_usage_reconciliation_required
  raise_if (not (transports_hold r)) purchase_usage_reconciliation_required
  ok r

-- The check is still to be closed with this period.
unfoldable pub is_open_of : Key → Period → Dict → Bool
is_open_of k p d =
    not (is_text "SETTLED" (lookup "state" d))
    && (is_text k.sk (lookup "periodSK" d)
        || value_eq (lookup "purchaseUsageKey" d) (dict (key_dict p.pointer)))

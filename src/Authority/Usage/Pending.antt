-- ===== src/Authority/Usage/Pending.antt =====
-- The receipts of checks that are still pending when a purchase period is closed: operations_compat.py,
-- `_metadata` of shared_operations/receipts.py and shared_recovery_contract/usage.py, and the tests of
-- one receipt in `due_reservation_actions` of purchase_usage.py. A receipt that was checked carries the
-- texts and numbers that were checked. `validate_capture` is a parameter, `none` where it raises.
use amt_trust_check_radar_la.Base.{
  ℕ, ◌+◌, min, String, Bool, true, false, ◌&&◌, ◌||◌, not, Option, none, some, List, [], ◌∷◌, ltb,
  leb, ◌==◌, str_eq, if◌then◌else◌, Outcome, ok, ◌>>=◌, ◌>>◌, raise_if, require,
}
use amt_trust_check_radar_la.Python.{
  Value, Dict, lookup, natural, text_of, dict_of, is_text, has_key, has_keys, same_keys, mem_key,
  matches, hex,
}
use amt_trust_check_radar_la.Authority.Policy.{
  Result, retention_seconds, purchase_usage_reconciliation_required,
}

-- `_metadata` returns these for a valid row; its schema version is always 1.
pub record Metadata : Type 0 where
  pub logical_check : String
  pub accepted_event : String
  pub terminal_event : String
  pub environment : String
  pub service : String
  pub input_kind : String
  pub access_class : String
  pub accepted_at : ℕ
  pub expires_at : ℕ

abbrev metadata_keys : List String
metadata_keys =
    "schemaVersion" ∷ "logicalCheckRef" ∷ "acceptedEventId" ∷ "terminalEventId" ∷ "environment"
    ∷ "service" ∷ "inputKind" ∷ "accessClass" ∷ "acceptedAtEpoch" ∷ "expiresAtEpoch" ∷ []

-- `_INPUTS`
abbrev inputs : String → List String
inputs service =
    if str_eq service "message_check"
    then "pasted_text" ∷ "ocr" ∷ "mixed" ∷ []
    else if str_eq service "url_check"
    then "standalone_url" ∷ "message_url" ∷ "qr_url" ∷ []
    else if str_eq service "recovery_clarification"
    then "recovery_clarification" ∷ []
    else []

-- the numbers that `_int` of receipts.py accepts
abbrev bounded : Option ℕ → Option ℕ
bounded none = none
bounded (some n) = if leb n 10000000000000 then some n else none

abbrev metadata_valid : Metadata → Bool
metadata_valid m =
    matches "lc1_" hex 32 32 m.logical_check
    && matches "op1_" hex 32 32 m.accepted_event
    && matches "op1_" hex 32 32 m.terminal_event
    && not (str_eq m.accepted_event m.terminal_event)
    && mem_key m.environment ("dev" ∷ "uat" ∷ "prod" ∷ [])
    && mem_key m.input_kind (inputs m.service)
    && mem_key m.access_class ("trial" ∷ "paid" ∷ "complimentary" ∷ [])
    && ltb m.accepted_at m.expires_at
    && leb m.expires_at (m.accepted_at + retention_seconds)

module _ {Fault : Type 0} (fault : Fault) where
  text_field : String → Dict → Outcome Fault String
  text_field k d = require (text_of (lookup k d)) fault

  int_field : String → Dict → Outcome Fault ℕ
  int_field k d = require (bounded (natural (lookup k d))) fault

  -- `_metadata`; `fault` is what it raises
  unfoldable pub metadata_of : Value → Outcome Fault Metadata
  unfolding text_field int_field
  metadata_of value = do
    d ← require (dict_of value) fault
    raise_if (not (same_keys d metadata_keys)) fault
    version ← int_field "schemaVersion" d
    accepted ← int_field "acceptedAtEpoch" d
    expires ← int_field "expiresAtEpoch" d
    logical_check ← text_field "logicalCheckRef" d
    accepted_event ← text_field "acceptedEventId" d
    terminal_event ← text_field "terminalEventId" d
    environment ← text_field "environment" d
    service ← text_field "service" d
    input_kind ← text_field "inputKind" d
    access_class ← text_field "accessClass" d
    let m : Metadata = record {
      logical_check = logical_check;
      accepted_event = accepted_event;
      terminal_event = terminal_event;
      environment = environment;
      service = service;
      input_kind = input_kind;
      access_class = access_class;
      accepted_at = accepted;
      expires_at = expires;
    }
    raise_if (not (version == 1 && metadata_valid m)) fault
    ok m

abbrev same_metadata : Metadata → Metadata → Bool
same_metadata a b =
    str_eq a.logical_check b.logical_check
    && str_eq a.accepted_event b.accepted_event
    && str_eq a.terminal_event b.terminal_event
    && str_eq a.environment b.environment
    && str_eq a.service b.service
    && str_eq a.input_kind b.input_kind
    && str_eq a.access_class b.access_class
    && a.accepted_at == b.accepted_at
    && a.expires_at == b.expires_at

-- what a valid capture says of its source
pub record CapturedSource : Type 0 where
  pub source_state : String
  pub reference : Metadata

-- a pending receipt that was checked
pub record Receipt : Type 0 where
  pub row : Dict
  pub sk : String
  pub check_id : String
  pub scope : String
  pub settle_by : ℕ
  pub deadline : ℕ

abbrev governed_fields : List String
governed_fields =
    "governedHistoryAcceptedAtEpoch" ∷ "governedHistorySourceType" ∷ "governedHistoryResultType"
    ∷ []

abbrev operations_fields : List String
operations_fields = "operationsReceipt" ∷ "operationsProjection" ∷ []

abbrev has_any : List String → Dict → Bool
has_any [] d = false
has_any (k ∷ ks) d = has_key k d || has_any ks d

-- `v in (s, ...)` for texts
abbrev pub is_one_of : List String → Value → Bool
is_one_of [] v = false
is_one_of (s ∷ ss) v = is_text s v || is_one_of ss v

abbrev pub is_url_scope : String → Bool
is_url_scope scope = str_eq scope "full_url" || str_eq scope "origin_only"

-- the tests of the history fields once they are all present
unfoldable history_valid : Receipt → ℕ → ℕ → Bool
history_valid r accepted now =
    let message = is_text "1.0.0-message-candidate.3" (lookup "messageTransportVersion" r.row) in
    let url = is_text "1.0.0-candidate.2" (lookup "urlTransportVersion" r.row) in
    let source = lookup "governedHistorySourceType" r.row in
    (if message then not url else url)
    && leb accepted (min now r.settle_by)
    && is_text (if message then "message" else "url") (lookup "governedHistoryResultType" r.row)
    && (not message
        || (str_eq r.scope "sanitized_message"
            && is_one_of ("pasted_text" ∷ "ocr" ∷ "mixed" ∷ []) source))
    && (not url
        || (is_url_scope r.scope
            && is_one_of ("standalone_url" ∷ "message_url" ∷ "qr_url" ∷ []) source))

unfoldable history_accepted : Receipt → ℕ → Result (Option ℕ)
unfolding history_valid
history_accepted r now = if not (has_any governed_fields r.row) then ok none else do
  raise_if (not (has_keys governed_fields r.row)) purchase_usage_reconciliation_required
  accepted ←
      require (natural (lookup "governedHistoryAcceptedAtEpoch" r.row))
        purchase_usage_reconciliation_required
  raise_if (not (history_valid r accepted now)) purchase_usage_reconciliation_required
  ok (some accepted)

abbrev service_of : String → String
service_of scope =
    if str_eq scope "sanitized_message"
    then "message_check"
    else if str_eq scope "recovery_clarification"
    then "recovery_clarification"
    else "url_check"

-- the metadata agrees with the history fields, if there are any
abbrev agrees_with_history : Receipt → Metadata → Option ℕ → Bool
agrees_with_history r m none = true
agrees_with_history r m (some accepted) =
    m.accepted_at == accepted && is_text m.input_kind (lookup "governedHistorySourceType" r.row)

unfoldable metadata_fits : Receipt → Metadata → Option ℕ → ℕ → Bool
metadata_fits r m accepted now =
    str_eq m.access_class "paid"
    && str_eq m.service (service_of r.scope)
    && leb m.accepted_at (min now r.settle_by)
    && leb m.expires_at r.deadline
    && agrees_with_history r m accepted

unfoldable receipt_metadata : Receipt → Option ℕ → ℕ → Result (Option Metadata)
unfolding metadata_fits
receipt_metadata r accepted now = if not (has_key "operationsReceipt" r.row) then ok none else do
  m ← metadata_of purchase_usage_reconciliation_required (lookup "operationsReceipt" r.row)
  raise_if (not (metadata_fits r m accepted now)) purchase_usage_reconciliation_required
  ok (some m)

-- Without metadata only an expired snapshot may be erased.
abbrev capture_fits : CapturedSource → Option Metadata → ℕ → Bool
capture_fits c none now = leb c.reference.expires_at now
capture_fits c (some m) now = same_metadata c.reference m

module _ (validate_capture : Value → Option CapturedSource) where
  unfoldable projection_checked : Receipt → Option Metadata → ℕ → Result (Option Metadata)
  projection_checked r m now = if not (has_key "operationsProjection" r.row) then ok m else do
    c ←
        require (validate_capture (lookup "operationsProjection" r.row))
          purchase_usage_reconciliation_required
    raise_if (not (str_eq c.source_state "ADMITTED" && capture_fits c m now))
        purchase_usage_reconciliation_required
    ok m

  unfoldable pub pending_metadata : Receipt → ℕ → Result (Option Metadata)
  unfolding history_accepted receipt_metadata projection_checked
  pending_metadata r now = do
    accepted ← history_accepted r now
    m ← receipt_metadata r accepted now
    projection_checked r m now

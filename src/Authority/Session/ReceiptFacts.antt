-- ===== src/Authority/Session/ReceiptFacts.antt =====
-- What the receipt of a new admission says.
use amt_trust_check_radar_la.Base.{
  ℕ, ◌+◌, ◌≤◌, String, Bool, true, false, ◌&&◌, not, Option, some, none, ◌≡◌, refl, ◌∙◌, str_eq,
  eq_refl, ok, Ensures, Ensures-bind, Ensures-require, Ensures-ok, arith,
}
use amt_trust_check_radar_la.Python.{
  Value, text, dict, Dict, get, put, get-put, lookup, natural, is_text,
}
use amt_trust_check_radar_la.Authority.Usage.Row.{number}
use amt_trust_check_radar_la.Authority.Grant.{Basis, paid, trial, complimentary, Allowance, Grant}
use amt_trust_check_radar_la.Authority.Session.Settings.{
  Settings, settings_valid, deadlines_ordered,
}
use amt_trust_check_radar_la.Authority.Session.Admit.{
  Request, receipt_row, basis_fields, versioned, copy_truthy, new_receipt, same_payload, settle_by,
  retention_deadline,
}

-- the fields that neither the basis nor the transport writes
abbrev pub kept : String → Bool
kept k =
    not (str_eq "accessUntilEpoch" k)
    && not (str_eq "purchaseUsageKey" k)
    && not (str_eq "recoveryTransportVersion" k)
    && not (str_eq "messageTransportVersion" k)
    && not (str_eq "urlTransportVersion" k)

get-copy_truthy :
    (j k : String) (from row : Dict)
    → str_eq j k ≡ false
    → get k (copy_truthy j from row) ≡ get k row
get-copy_truthy j k from row h = ground (arith, get-put j k (lookup j from) row)

pub get-versioned :
    (k : String) (payload row : Dict) → kept k ≡ true → get k (versioned payload row) ≡ get k row
get-versioned k payload row h =
    get-copy_truthy "recoveryTransportVersion" k payload _ (ground arith)
    ∙ get-copy_truthy "messageTransportVersion" k payload _ (ground arith)
    ∙ get-copy_truthy "urlTransportVersion" k payload row (ground arith)

get-basis_fields :
    (k : String) (b : Basis) (a : Option Allowance) (row : Dict)
    → kept k ≡ true
    → Ensures (λ row'. get k row' ≡ get k row) (basis_fields b a row)
unfolding basis_fields
get-basis_fields k paid (some a) row h = Ensures-require _ _ _ λ purchase hp.
    Ensures-bind _ _ λ access ha. Ensures-ok _ (
      ground (
        arith,
        get-put "accessUntilEpoch" k (number access) (put "purchaseUsageKey" (dict purchase) row),
        get-put "purchaseUsageKey" k (dict purchase) row,
      ))
get-basis_fields k paid none row h = Ensures-ok _ refl
get-basis_fields k trial a row h = Ensures-ok _ refl
get-basis_fields k complimentary a row h = Ensures-ok _ refl

module _ (s : Settings) (part : String) (r : Request) (digest : String) (g : Grant) (token : String)
    (now : ℕ) where
  -- A field that only the receipt itself writes is as it was written.
  get-new_receipt :
      (k : String)
      → kept k ≡ true
      → Ensures
          (λ row.
            (scope : Value) × (get k row ≡ get k (receipt_row s part r digest scope g token now)))
          (new_receipt s part r digest g token now)
  unfolding new_receipt
  get-new_receipt k h = Ensures-require _ _ _ λ target ht. Ensures-require _ _ _ λ scope hs.
      Ensures-bind _ _ λ row hr. Ensures-ok _ (
        scope,
        get-versioned k r.payload row h ∙ (get-basis_fields k g.basis g.period _ h).at row hr,
      )

-- a receipt that is open, and that is retained until after its reconciliation
pub record Opened (s : Settings) (digest : String) (now : ℕ) (row : Dict) : Type 0 where
  pub open_state : is_text "ADMITTED" (lookup "state" row) ≡ true
  pub payload : same_payload row digest ≡ true
  pub settles : natural (lookup "settleByEpoch" row) ≡ some (settle_by s now)
  pub deadline : natural (lookup "retentionDeadlineEpoch" row) ≡ some (retention_deadline s now)
  pub outlives :
      settle_by s now + s.operation_validity_seconds + s.reconciliation_seconds
      ≤ retention_deadline s now

settings-ordered :
    (s : Settings)
    → settings_valid s ≡ true
    → s.operation_validity_seconds + s.worker_settlement_seconds + s.reconciliation_seconds
      ≤ s.receipt_retention_seconds
unfolding settings_valid deadlines_ordered
settings-ordered s h = ground arith

is_text_refl : (t : String) → is_text t (text t) ≡ true
is_text_refl t = simp eq_refl

-- Under settings that pass their validation, the receipt of a new admission is open, carries the
-- payload's digest, and is retained for the operation's validity and the reconciliation time after
-- the deadline of its settlement.
pub new_receipt-Opened :
    (s : Settings) (part : String) (r : Request) (digest : String) (g : Grant) (token : String)
    (now : ℕ) (row : Dict)
    → settings_valid s ≡ true
    → new_receipt s part r digest g token now ≡ ok row
    → Opened s digest now row
unfolding receipt_row natural
new_receipt-Opened s part r digest g token now row valid h =
    let (_, state) = (get-new_receipt s part r digest g token now "state" refl).at row h in
    let (_, mac) = (get-new_receipt s part r digest g token now "payloadHmac" refl).at row h in
    let (_, settles) =
      (get-new_receipt s part r digest g token now "settleByEpoch" refl).at row h in
    let (_, deadline) =
      (get-new_receipt s part r digest g token now "retentionDeadlineEpoch" refl).at row h in
    record {
      open_state = rw state refl;
      payload = rw mac (is_text_refl digest);
      settles = rw settles refl;
      deadline = rw deadline refl;
      outlives = let l = settings-ordered s valid in omega arith;
    }

-- ===== src/Authority/Usage/Closures.antt =====
-- What the closing of a purchase does to its open reservations.
use amt_trust_check_radar_la.Base.{
  ℕ, ◌≤◌, ◌<◌, String, ◌≡◌, ◌∙◌, refl, Bool, true, false, ◌&&◌, ◌||◌, not, ap, eq_iff, Option, none,
  some, [], ◌∷◌, Ensures, Ensures-if, Ensures-ok, Ensures-bind, Ensures-require, Ensures-raise_if,
  Returns, Returns-if, Returns-bind, Returns-require, Returns-raise_if, str_eq, ltb, leb, ok, arith,
  if◌then◌else◌,
}
use amt_trust_check_radar_la.Python.{
  Value, text, text_of, matches, Dict, lookup, get, put, remove, is_text, mem_key, name_char,
  has_key, get-put,
}
use amt_trust_check_radar_la.Dynamo.{Key, Action, written}
use amt_trust_check_radar_la.Dynamo.Spares.{get-remove}
use amt_trust_check_radar_la.Authority.Usage.Row.{number}
use amt_trust_check_radar_la.Authority.Usage.Actions.{Period}
use amt_trust_check_radar_la.Authority.Usage.Pending.{Metadata, Receipt, pending_metadata}
use amt_trust_check_radar_la.Authority.Usage.Open.{
  pending_receipt, recovery_version, text_matches, client_fits, recovery_fits, transports_hold,
}
use amt_trust_check_radar_la.Authority.Usage.Closing.{
  Remote, recovery_usage, failed_row, with_summary, with_operations, without_operations,
  close_receipt,
}

-- the attributes that the closing of a receipt may write or drop
abbrev touched : String → Bool
touched j = mem_key j (
    "state" ∷ "chargedChecks" ∷ "processingOutcome" ∷ "receiptId" ∷ "expiresAt" ∷ "GSI1PK"
    ∷ "GSI1SK" ∷ "assessmentEpoch" ∷ "resultSummary" ∷ "operationsTerminalReasonCode"
    ∷ "operationsReceipt" ∷ "operationsProjection" ∷ [])

-- The receipt's row is settled without a charge, expires with its retention and is otherwise as it was.
pub record IsUncharged (r : Receipt) (d : Dict) : Type 0 where
  pub settled : is_text "SETTLED" (lookup "state" d) ≡ true
  pub charge : lookup "chargedChecks" d ≡ number 0
  pub outcome : is_text "failed" (lookup "processingOutcome" d) ≡ true
  pub expiry : lookup "expiresAt" d ≡ lookup "retentionDeadlineEpoch" r.row
  pub others : (j : String) → touched j ≡ false → get j d ≡ get j r.row

-- the attributes that a later step may write or drop
abbrev is_extra : String → Bool
is_extra j = mem_key j (
    "GSI1SK" ∷ "assessmentEpoch" ∷ "resultSummary" ∷ "operationsTerminalReasonCode"
    ∷ "operationsReceipt" ∷ "operationsProjection" ∷ [])

-- A test that tells two texts apart shows that they differ.
apart : (test : String → Bool) (i j : String) → test i ≡ true → test j ≡ false → str_eq i j ≡ false
apart test i j hi hj = ground (arith, eq_iff i j, ap test)

untouched :
    (i j : String) (v : Value) (d : Dict)
    → touched j ≡ false
    → touched i ≡ true
    → get j (put i v d) ≡ get j d
untouched i j v d hj hi = rw (get-put i j v d, apart touched i j hi hj) refl

extra-touched : (j : String) → touched j ≡ false → is_extra j ≡ false
extra-touched j h = ground arith

-- a change of the extra attributes alone
IsUncharged-same :
    (r : Receipt) (d e : Dict)
    → ((j : String) → is_extra j ≡ false → get j e ≡ get j d)
    → IsUncharged r d
    → IsUncharged r e
IsUncharged-same r d e same u = record {
  settled = rw (same "state" refl) u.settled;
  charge = rw (same "chargedChecks" refl) u.charge;
  outcome = rw (same "processingOutcome" refl) u.outcome;
  expiry = rw (same "expiresAt" refl) u.expiry;
  others = λ j h. same j (extra-touched j h) ∙ u.others j h;
}

IsUncharged-put :
    (r : Receipt) (i : String) (v : Value) (d : Dict)
    → is_extra i ≡ true
    → IsUncharged r d
    → IsUncharged r (put i v d)
IsUncharged-put r i v d h u =
    IsUncharged-same r d _ (λ j hj. rw (get-put i j v d, apart is_extra i j h hj) refl) u

IsUncharged-remove :
    (r : Receipt) (i : String) (d : Dict)
    → is_extra i ≡ true
    → IsUncharged r d
    → IsUncharged r (remove i d)
IsUncharged-remove r i d h u =
    IsUncharged-same r d _ (λ j hj. get-remove i j d (apart is_extra i j h hj)) u

failed_row-IsUncharged :
    (sha256 : String → String) (k : Key) (r : Receipt) → IsUncharged r (failed_row sha256 k r)
unfolding failed_row
failed_row-IsUncharged sha256 k r = record {
  settled = simp get-put;
  charge = simp get-put;
  outcome = simp get-put;
  expiry = simp get-put;
  others = λ j h.
      untouched "GSI1SK" j _ _ h refl
      ∙ untouched "GSI1PK" j _ _ h refl
      ∙ untouched "expiresAt" j _ _ h refl
      ∙ untouched "receiptId" j _ _ h refl
      ∙ untouched "processingOutcome" j _ _ h refl
      ∙ untouched "chargedChecks" j _ _ h refl
      ∙ untouched "state" j _ _ h refl;
}

with_summary-IsUncharged :
    (r : Receipt) (d : Dict) (now : ℕ)
    → IsUncharged r d
    → Ensures (IsUncharged r) (with_summary r d now)
unfolding with_summary
with_summary-IsUncharged r d now u =
    Ensures-if (not (str_eq r.scope "recovery_clarification")) _ _ (λ h. Ensures-ok _ u)
      λ h. Ensures-raise_if _ _ _ λ hv. Ensures-bind _ _ λ summary hs. Ensures-ok _ (
        IsUncharged-put r "assessmentEpoch" _ _ refl (IsUncharged-put r "resultSummary" _ _ refl u))

without-IsUncharged :
    (r : Receipt) (d : Dict) → IsUncharged r d → IsUncharged r (without_operations d)
without-IsUncharged r d u = IsUncharged-remove r "operationsProjection" _ refl (
    IsUncharged-remove r "operationsTerminalReasonCode" _ refl
      (IsUncharged-remove r "operationsReceipt" _ refl u))

expired-IsUncharged :
    (r : Receipt) (v w x : Value) (d : Dict)
    → IsUncharged r d
    → IsUncharged r
        (put "GSI1SK" v (put "assessmentEpoch" w (put "operationsTerminalReasonCode" x d)))
expired-IsUncharged r v w x d u = IsUncharged-put r "GSI1SK" _ _ refl (
    IsUncharged-put r "assessmentEpoch" _ _ refl
      (IsUncharged-put r "operationsTerminalReasonCode" _ _ refl u))

if-IsUncharged :
    (r : Receipt) (c : Bool) (d e : Dict)
    → IsUncharged r d
    → IsUncharged r e
    → IsUncharged r (if c then d else e)
if-IsUncharged r true d e u v = u
if-IsUncharged r false d e u v = v

with_operations-IsUncharged :
    (k : Key) (r : Receipt) (m : Option Metadata) (d : Dict) (now : ℕ)
    → IsUncharged r d
    → IsUncharged r (with_operations k r m d now)
unfolding with_operations
with_operations-IsUncharged k r none d now u =
    if-IsUncharged r (has_key "operationsProjection" r.row) _ _ (without-IsUncharged r d u) u
with_operations-IsUncharged k r (some m) d now u =
    if-IsUncharged r (ltb now m.expires_at) _ _ (expired-IsUncharged r _ _ _ d u)
      (without-IsUncharged r d u)

-- what one action does to an open receipt
pub data Closes (k : Key) (now : ℕ) (r : Receipt) (a : Action) : Type 0 where
  erases : r.deadline ≤ now → written a (some r.row) ≡ none → Closes k now r a
  settles :
      {d : Dict}
      → now < r.deadline
      → written a (some r.row) ≡ some d
      → IsUncharged r d
      → Closes k now r a

pub close_receipt-Closes :
    (e : Remote) (k : Key) (now : ℕ) (r : Receipt)
    → Ensures (Closes k now r) (close_receipt e k now r)
unfolding close_receipt
close_receipt-Closes e k now r =
    Ensures-if (leb r.deadline now) _ _ (λ h. Ensures-ok _ (erases (ground arith) refl))
      λ h. Ensures-bind _ _ λ settled hs. Ensures-bind _ _ λ m hm. Ensures-ok _ (
        settles (ground arith) refl (
          with_operations-IsUncharged k r m settled now (
            (with_summary-IsUncharged r _ now (failed_row-IsUncharged e.sha256 k r)).at settled
              hs)))

-- a receipt of the recovery service names its client and the version
abbrev recovery_ready : Receipt → Bool
recovery_ready r =
    not (str_eq r.scope "recovery_clarification")
    || (text_matches name_char 1 64 (lookup "clientCheckId" r.row)
        && is_text recovery_version (lookup "recoveryTransportVersion" r.row))

fits-ready : (r : Receipt) → client_fits r ≡ true → recovery_fits r ≡ true → recovery_ready r ≡ true
unfolding client_fits recovery_fits
fits-ready r hc hr = ground arith

transports-fit :
    (r : Receipt) → transports_hold r ≡ true → (client_fits r ≡ true) × (recovery_fits r ≡ true)
unfolding transports_hold
transports-fit r h = ground arith

transports-ready : (r : Receipt) → not (transports_hold r) ≡ false → recovery_ready r ≡ true
transports-ready r h = let (hc, hr) = transports-fit r (ground arith) in fits-ready r hc hr

pending_receipt-ready :
    (k : Key) (p : Period) (d : Dict)
    → Ensures (λ r. recovery_ready r ≡ true) (pending_receipt k p d)
unfolding pending_receipt
pending_receipt-ready k p d = Ensures-raise_if _ _ _ λ h1. Ensures-require _ _ _ λ grant h2.
    Ensures-require _ _ _ λ check h3. Ensures-raise_if _ _ _ λ h4.
      Ensures-require _ _ _ λ revision h5. Ensures-require _ _ _ λ settle h6.
        Ensures-require _ _ _ λ deadline h7. Ensures-require _ _ _ λ access h8.
          Ensures-require _ _ _ λ scope h9.
            Ensures-raise_if _ _ _
              λ h10. Ensures-raise_if _ _ _ λ h11. Ensures-ok _ (transports-ready _ h11)

text_matches-text :
    (v : Value)
    → text_matches name_char 1 64 v ≡ true
    → (t : String) × (text_of v ≡ some t) × (matches "" name_char 1 64 t ≡ true)
text_matches-text (text t) h = (t, refl, h)
text_matches-text _ h = cc

recovery_usage-Returns :
    (client : Value) → text_matches name_char 1 64 client ≡ true → Returns (recovery_usage client)
unfolding recovery_usage
recovery_usage-Returns client h =
    let (t, ht, hm) = text_matches-text client h in
    Returns-require _ _ _ ht (Returns-raise_if _ _ _ (rw hm refl) (_, refl))

with_summary-Returns :
    (r : Receipt) (d : Dict) (now : ℕ) → recovery_ready r ≡ true → Returns (with_summary r d now)
unfolding with_summary
with_summary-Returns r d now h =
    Returns-if (not (str_eq r.scope "recovery_clarification")) _ _ (λ hs. (_, refl))
      λ hs. Returns-raise_if _ _ _ (ground arith) (
        Returns-bind _ _ (recovery_usage-Returns (lookup "clientCheckId" r.row) (ground arith))
          λ summary hu. (_, refl))

-- The closing returns an action, which closes the receipt without a charge.
pub record IsClosable (e : Remote) (k : Key) (now : ℕ) (r : Receipt) : Type 0 where
  pub action : Action
  pub returned : close_receipt e k now r ≡ ok action
  pub effect : Closes k now r action

-- For a receipt that passed the tests of a pending row and of its metadata the closing returns an action. It
-- erases the row if its retention is past. Else it settles the row as failed, without a charge, and leaves
-- the attributes that do not belong to a settlement as they were.
pub close_receipt-IsClosable :
    (e : Remote) (k : Key) (p : Period) (d : Dict) (r : Receipt) (m : Option Metadata) (now : ℕ)
    → pending_receipt k p d ≡ ok r
    → pending_metadata e.validate_capture r now ≡ ok m
    → IsClosable e k now r
unfolding close_receipt
close_receipt-IsClosable e k p d r m now hr hm =
    let ready = (pending_receipt-ready k p d).at r hr in
    let (a, ha) =
      Returns-if (leb r.deadline now) _ _ (λ h. (_, refl))
        λ h.
          Returns-bind _ _ (with_summary-Returns r _ now ready)
            λ s hs. Returns-bind _ _ (m, hm) λ n hn. (_, refl) in
    record { action = a; returned = ha; effect = (close_receipt-Closes e k now r).at a ha }

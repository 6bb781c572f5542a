-- ===== src/Authority/Session/Charges.antt =====
-- A settlement gives back one reservation and charges at most one check, the same in the period's
-- counters and on the receipt.
use amt_trust_check_radar_la.Base.{
  ℕ, ◌+◌, ◌≤◌, String, true, false, Option, some, none, List, [], ◌∷◌, ◌++◌, ◌≡◌, refl, ◌∙◌, ap, ok,
  str_eq, Ensures, Ensures-bind, Ensures-require, Ensures-ok, Ensures-if, arith,
}
use amt_trust_check_radar_la.Python.{
  pos, negsuc, decimal, Value, Dict, put, get-put, lookup, natural, is_text, text_of, value_eq,
}
use amt_trust_check_radar_la.Dynamo.{
  Key, Action, key_of, condition_of, holds, written, changes, change-add, changes-step,
}
use amt_trust_check_radar_la.Authority.Policy.{Result}
use amt_trust_check_radar_la.Authority.Usage.Actions.{Period}
use amt_trust_check_radar_la.Authority.Usage.Pairs.{Paired}
use amt_trust_check_radar_la.Authority.Session.Settings.{Settings}
use amt_trust_check_radar_la.Authority.Session.Store.{Db, Env, account_conditions}
use amt_trust_check_radar_la.Authority.Session.Token.{Token}
use amt_trust_check_radar_la.Authority.Session.Admit.{check_key, inflight_key}
use amt_trust_check_radar_la.Authority.Session.Reserves.{
  Names, paid_release-Paired, trial_release-written, natural-decimal, less-one,
}
use amt_trust_check_radar_la.Authority.Session.Settle.{
  Settlement, charge, release, released, trial_release, inflight_release, settle_action, settlement,
}
use amt_trust_check_radar_la.Authority.Session.Once.{IsClosed, settle_action-IsClosed}

abbrev value_or_empty : Option String → String
value_or_empty none = ""
value_or_empty (some s) = s

-- the effect of an action on the trial's period with key `k`: one reservation less, and the charge
pub record Counted (k : Key) (receipt : Dict) (charged : ℕ) (act : Action) : Type 0 where
  pub own_key : key_of act ≡ k
  pub refused_at_zero :
      (d : Dict)
      → natural (lookup "reservedChecks" d) ≡ some 0
      → holds (condition_of act) (some d) ≡ false
  pub same_grant :
      (d : Dict)
      → holds (condition_of act) (some d) ≡ true
      → value_eq (lookup "grantRevision" receipt) (lookup "grantRevision" d) ≡ true
  pub effect :
      (d : Dict) (used r : ℕ)
      → natural (lookup "usedChecks" d) ≡ some used
      → natural (lookup "reservedChecks" d) ≡ some (r + 1)
      → (after : Dict) × (written act (some d) ≡ some after)
        × (natural (lookup "usedChecks" after) ≡ some (used + charged))
        × (natural (lookup "reservedChecks" after) ≡ some r)

-- the actions that give back the reservation of a receipt
pub data Releases (db : Db) (part : String) (row : Dict) (charged now : ℕ) (acts : List Action)
    : Type 0 where
  -- both rows of the funded period that the receipt names
  funded :
      (p : Period)
      → Names db.authority part row p
      → Paired p.row (negsuc 0) (pos charged) now acts
      → Releases db part row charged now acts
  -- the one row of a trial's period
  counted :
      (sk : String) (act : Action)
      → is_text "paid" (lookup "basis" row) ≡ false
      → text_of (lookup "periodSK" row) ≡ some sk
      → acts ≡ act ∷ []
      → Counted (record { pk = part; sk = sk }) row charged act
      → Releases db part row charged now acts
  -- nothing was reserved, since the receipt names no period
  unmetered :
      is_text "paid" (lookup "basis" row) ≡ false
      → str_eq (value_or_empty (text_of (lookup "periodSK" row))) "" ≡ true
      → acts ≡ []
      → Releases db part row charged now acts

at_zero :
    (table : String) (k : Key) (receipt d : Dict) (charged : ℕ)
    → natural (lookup "reservedChecks" d) ≡ some 0
    → holds (condition_of (trial_release table k receipt charged)) (some d) ≡ false
unfolding trial_release holds natural
at_zero table k receipt d charged h = ground arith

of_grant :
    (table : String) (k : Key) (receipt d : Dict) (charged : ℕ)
    → holds (condition_of (trial_release table k receipt charged)) (some d) ≡ true
    → value_eq (lookup "grantRevision" receipt) (lookup "grantRevision" d) ≡ true
unfolding trial_release holds
of_grant table k receipt d charged h = ground arith

trial_release-Counted :
    (table : String) (k : Key) (receipt : Dict) (charged : ℕ)
    → Counted k receipt charged (trial_release table k receipt charged)
unfolding trial_release
trial_release-Counted table k receipt charged = record {
  own_key = refl;
  refused_at_zero = λ d h. at_zero table k receipt d charged h;
  same_grant = λ d h. of_grant table k receipt d charged h;
  effect = λ d used r hu hr. (
    _,
    trial_release-written table k receipt d charged used r hu hr,
    simp (get-put, natural-decimal),
    simp (get-put, natural-decimal),
  );
}

module _ (e : Env) (db : Db) (part : String) (row : Dict) (charged now : ℕ) where
  released-Releases :
      (o : Option String)
      → is_text "paid" (lookup "basis" row) ≡ false
      → text_of (lookup "periodSK" row) ≡ o
      → Ensures (Releases db part row charged now) (released e part row charged o)
  released-Releases none b h = Ensures-ok _ (unmetered b (rw h refl) refl)
  released-Releases (some sk) b h =
      Ensures-if (str_eq sk "") _ _ (λ blank. Ensures-ok _ (unmetered b (rw h blank) refl))
        (λ named. Ensures-ok _ (
          counted sk _ b h refl
            (trial_release-Counted _ (record { pk = part; sk = sk }) row charged)))

  release-Releases : Ensures (Releases db part row charged now) (release e db part row charged now)
  unfolding release
  release-Releases =
      Ensures-if (is_text "paid" (lookup "basis" row)) _ _
        (λ bought. record {
          at = λ acts h.
              let (p, names, both_rows) = paid_release-Paired e db part row charged now acts h in
              funded p names both_rows;
        })
        (λ other. released-Releases (text_of (lookup "periodSK" row)) other refl)

-- the effect of an action on the count of the checks in flight of a partition
pub record FreesPlace (part : String) (act : Action) : Type 0 where
  pub own_key : key_of act ≡ inflight_key part
  pub refused_at_zero :
      (d : Dict)
      → natural (lookup "activeCount" d) ≡ some 0
      → holds (condition_of act) (some d) ≡ false
  pub effect :
      (d : Dict) (n : ℕ)
      → natural (lookup "activeCount" d) ≡ some (n + 1)
      → (after : Dict) × (written act (some d) ≡ some after)
        × (natural (lookup "activeCount" after) ≡ some n)

none_in_flight :
    (s : Settings) (part : String) (d : Dict)
    → natural (lookup "activeCount" d) ≡ some 0
    → holds (condition_of (inflight_release s part)) (some d) ≡ false
unfolding inflight_release holds natural
none_in_flight s part d h = ground arith

inflight_release-written :
    (s : Settings) (part : String) (d : Dict) (n : ℕ)
    → natural (lookup "activeCount" d) ≡ some (n + 1)
    → written (inflight_release s part) (some d) ≡ some (put "activeCount" (decimal (pos n)) d)
unfolding inflight_release changes
inflight_release-written s part d n h = changes-step _ [] d _ (
    change-add "activeCount" (negsuc 0) (n + 1) d h
    ∙ ap (λ z. some (put "activeCount" (decimal z) d)) (less-one n))

inflight_release-FreesPlace :
    (s : Settings) (part : String) → FreesPlace part (inflight_release s part)
unfolding inflight_release
inflight_release-FreesPlace s part = record {
  own_key = refl;
  refused_at_zero = λ d h. none_in_flight s part d h;
  effect = λ d n h. (_, inflight_release-written s part d n h, simp (get-put, natural-decimal));
}

charge-at_most_one : (outcome : String) (row : Dict) → charge outcome row ≤ 1
unfolding charge
charge-at_most_one outcome row = ground arith

settle_action-key :
    (s : Settings) (part : String) (w : Settlement) (row : Dict) (charged : ℕ) (receipt_id : String)
    (token : Value) (due : ℕ) (summary : Value) (now : ℕ)
    → key_of (settle_action s part w row charged receipt_id token due summary now)
      ≡ check_key part w.check_id
unfolding settle_action
settle_action-key s part w row charged receipt_id token due summary now = refl

-- the transaction of a settlement
pub record Charges (e : Env) (db : Db) (part : String) (w : Settlement) (row : Dict) (now : ℕ)
    (items : List Action) : Type 0 where
  pub conditions : List Action
  pub freed : List Action
  pub place : Action
  pub closing : Action
  pub split_items : items ≡ conditions ++ freed ++ (place ∷ closing ∷ [])
  pub of_account : account_conditions e db w.account ≡ ok conditions
  pub releases : Releases db part row (charge w.outcome row) now freed
  pub frees_place : FreesPlace part place
  pub closes : key_of closing ≡ check_key part w.check_id
  pub closed :
      (after : Dict)
      → written closing (some row) ≡ some after
      → IsClosed (charge w.outcome row) row after
  pub at_most_one : charge w.outcome row ≤ 1

-- The one transaction of a settlement gives back one reservation where the receipt names a period, in
-- both rows of the paid period that it names or in the one row of a trial's, with exactly the charge
-- that it writes on the receipt, at most one check. Nothing is given back only where the receipt names
-- no period. The count of checks in flight falls by one, and a trial's row without a reservation and a
-- count of 0 in flight refuse the transaction.
pub settlement-Charges :
    (e : Env) (db : Db) (summary : Dict → Result Value) (part : String) (t : Token) (w : Settlement)
    (row : Dict) (token : Value) (now : ℕ) (items : List Action)
    → settlement e db summary part t w row token now ≡ ok items
    → Charges e db part w row now items
unfolding settlement
settlement-Charges e db summary part t w row token now =
    (Ensures-bind _ _ λ checked hs. Ensures-bind _ _ λ m hm. Ensures-bind _ _ λ conditions hc.
      Ensures-bind _ _ λ freed hf. Ensures-require _ _ _ λ deadline hd. Ensures-bind _ _ λ due hu.
        Ensures-ok _ (record {
          conditions = conditions;
          freed = freed;
          place = inflight_release e.settings part;
          closing = _;
          split_items = refl;
          of_account = hc;
          releases = (release-Releases e db part row (charge w.outcome row) now).at freed hf;
          frees_place = inflight_release-FreesPlace e.settings part;
          closes = settle_action-key _ _ _ _ _ _ _ _ _ _;
          closed = λ after wrote. settle_action-IsClosed _ _ _ _ after _ _ _ _ _ _ wrote;
          at_most_one = charge-at_most_one w.outcome row;
        })).at

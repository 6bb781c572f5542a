-- ===== src/Authority/Session/Reserves.antt =====
-- What an admission reserves, and what the settlement of a check gives back.
use amt_trust_check_radar_la.Base.{
  true, none, eq_iff, Ensures-raise_if, ◌>>=◌, ℕ, ◌+◌, ◌≤◌, String, Option, some, none, List, [],
  ◌∷◌, ◌++◌, ◌≡◌, refl, ap, ◌∙◌, ok, Ensures, Ensures-bind, Ensures-require, Ensures-ok, arith,
}
use amt_trust_check_radar_la.Python.{
  ℤ, Value, text, text_of, is_text, integral, same_number, pos, negsuc, ◌+ℤ◌, decimal, Dict, put,
  get-put, lookup, natural,
}
use amt_trust_check_radar_la.Dynamo.{
  Key, Action, add, put_item, not_exists, written, changes, change-add, changes-step,
}
use amt_trust_check_radar_la.Authority.Usage.Actions.{Read, Period, validate_period}
use amt_trust_check_radar_la.Authority.Usage.Row.{valid_key}
use amt_trust_check_radar_la.Authority.Usage.PeriodWrites.{validate_period-IsSound}
use amt_trust_check_radar_la.Authority.Usage.Counters.{period_for_receipt, is_paid_receipt}
use amt_trust_check_radar_la.Authority.Usage.Pairs.{Paired, paired_counter_actions-Paired}
use amt_trust_check_radar_la.Authority.Grant.{
  Basis, paid, trial, complimentary, limit_of, Allowance, Grant,
}
use amt_trust_check_radar_la.Authority.Grant.Facts.{HasRoom, IsAdmissible, grant-IsAdmissible}
use amt_trust_check_radar_la.Authority.Session.Settings.{Settings}
use amt_trust_check_radar_la.Authority.Session.Store.{Db, Env}
use amt_trust_check_radar_la.Authority.Session.Admit.{
  Request, reservation, trial_reservation, preparation_check, inflight_action, admission,
}
use amt_trust_check_radar_la.Authority.Session.Settle.{paid_release, trial_release}

-- the writes of one reservation
pub data Reserves (b : Basis) (period : Option Allowance) (now : ℕ) (acts : List Action)
    : Type 0 where
  -- nothing is metered
  unmetered : period ≡ none → acts ≡ [] → Reserves b period now acts
  -- the period row and the purchase's row count the check
  funded :
      (a : Allowance)
      → period ≡ some a
      → Paired a.row (pos 1) (pos 0) now acts
      → Reserves b period now acts
  -- the period row counts the check
  counted :
      (a : Allowance) (act : Action) (after : Dict)
      → period ≡ some a
      → acts ≡ act ∷ []
      → written act (some a.row) ≡ some after
      → natural (lookup "reservedChecks" after) ≡ some (a.reserved_checks + 1)
      → natural (lookup "usedChecks" after) ≡ some a.used_checks
      → a.used_checks + (a.reserved_checks + 1) ≤ limit_of b
      → Reserves b period now acts

trial_reservation-written :
    (table : String) (k : Key) (a : Allowance) (now : ℕ)
    → natural (lookup "reservedChecks" a.row) ≡ some a.reserved_checks
    → written (trial_reservation table k a now) (some a.row)
      ≡ some (put "reservedChecks" (decimal (pos (a.reserved_checks + 1))) a.row)
unfolding trial_reservation changes
trial_reservation-written table k a now h =
    changes-step (add "reservedChecks" (pos 1)) [] a.row _
      (change-add "reservedChecks" (pos 1) a.reserved_checks a.row h)

pub natural-decimal : (n : ℕ) → natural (decimal (pos n)) ≡ some n
unfolding natural
natural-decimal n = refl

module _ (e : Env) (db : Db) (part : String) (now : ℕ) where
  trial-Reserves :
      (b : Basis) (a : Allowance) (sk : String)
      → HasRoom b (some a)
      → Reserves b
          (some a)
          now
          (trial_reservation e.settings.authority_table (record { pk = part; sk = sk }) a now ∷ [])
  trial-Reserves b a sk (used, reserved, room) =
      let row = put "reservedChecks" (decimal (pos (a.reserved_checks + 1))) a.row in
      counted a _ row refl refl
        (trial_reservation-written e.settings.authority_table (record { pk = part; sk = sk }) a now
          reserved)
        (simp (get-put, natural-decimal)) (simp get-put used) (omega arith)

  reservation-Reserves :
      (b : Basis) (period : Option Allowance)
      → HasRoom b period
      → Ensures (Reserves b period now) (reservation e db part b period now)
  unfolding reservation
  reservation-Reserves b none room = Ensures-ok _ (unmetered refl refl)
  reservation-Reserves paid (some a) room = Ensures-require _ _ _ λ sk hs. record {
    at = λ acts h.
        funded a refl (paired_counter_actions-Paired _ _ _ a.row (pos 1) (pos 0) now acts h);
  }
  reservation-Reserves trial (some a) room =
      Ensures-require _ _ _ λ sk hs. Ensures-ok _ (trial-Reserves trial a sk room)
  reservation-Reserves complimentary (some a) room =
      Ensures-require _ _ _ λ sk hs. Ensures-ok _ (trial-Reserves complimentary a sk room)

-- What an admission proposes ends with the reservation, the count of checks in flight and the new
-- receipt, which must not be there yet.
pub record Proposal (s : Settings) (part : String) (g : Grant) (now : ℕ) (row : Dict)
    (items : List Action) : Type 0 where
  pub conditions : List Action
  pub reserved : List Action
  pub split_items :
      items
      ≡ conditions
        ++ reserved
        ++ (inflight_action s part ∷ put_item s.authority_table row (not_exists "PK") ∷ [])
  pub reserves : Reserves g.basis g.period now reserved

abbrev Admissible : Env → Db → String → ℕ → Dict × List Action → Type 0
Admissible e db part now x =
    (g : Grant) × IsAdmissible db.authority part now g × Proposal e.settings part g now x.0 x.1

-- An admission rests on a grant that has room, and its one transaction reserves one check in the
-- period of the grant, in both rows of a funded period, without passing the limit; the receipt is
-- put only where none is.
pub admission-Proposal :
    (e : Env) (db : Db) (account part : String) (r : Request) (digest token : String) (now : ℕ)
    (row : Dict) (items : List Action)
    → admission e db account part r digest token now ≡ ok (row, items)
    → (g : Grant) × IsAdmissible db.authority part now g × Proposal e.settings part g now row items
unfolding admission
admission-Proposal e db account part r digest token now row items =
    (Ensures-bind _ _ λ d hd. Ensures-bind _ _ λ g hg. Ensures-bind _ _ λ new hn.
        Ensures-bind _ _ λ conditions hc. Ensures-bind _ _ λ reserved hr.
          let good = grant-IsAdmissible db.authority part now g hg in
          Ensures-ok {P = Admissible e db part now}
            (
              new,
              conditions
                  ++ preparation_check e.settings.authority_table part r digest now
                  ++ reserved
                  ++ (inflight_action e.settings part
                      ∷ put_item e.settings.authority_table new (not_exists "PK")
                      ∷ []),
            )
            (
              g,
              good,
              record {
                conditions =
                    conditions ++ preparation_check e.settings.authority_table part r digest now;
                reserved = reserved;
                split_items = refl;
                reserves =
                    (reservation-Reserves e db part now g.basis g.period good.room).at reserved hr;
              },
            )).at
      (row, items)

-- the period that an admitted receipt of a paid check names, with the same purchase and revision
pub record Names (get_item : Read) (part : String) (receipt : Dict) (p : Period) : Type 0 where
  pub admitted : is_text "ADMITTED" (lookup "state" receipt) ≡ true
  pub bought : is_text "paid" (lookup "basis" receipt) ≡ true
  pub sort_key : String
  pub named : lookup "periodSK" receipt ≡ text sort_key
  pub stored : get_item (record { pk = part; sk = sort_key }) ≡ some p.row
  pub purchase : Key
  pub same_purchase : valid_key (lookup "purchaseUsageKey" receipt) ≡ ok purchase
  pub same_pk : p.pointer.pk ≡ purchase.pk
  pub same_sk : p.pointer.sk ≡ purchase.sk
  pub same_revision : natural (lookup "grantRevision" receipt) ≡ some p.grant_revision

text_of-text : (v : Value) (s : String) → text_of v ≡ some s → v ≡ text s
text_of-text (text t) s h = cc
text_of-text _ s h = cc

natural-same :
    (v : Value) (z : ℤ) (n : ℕ)
    → integral v ≡ some z
    → same_number z (pos n) ≡ true
    → natural v ≡ some n
unfolding natural
natural-same v (pos m) n h e = rw h (ground arith)
natural-same v (negsuc m) n h e = cc

validate_period-found : (o : Option Dict) (p : Period) → validate_period o ≡ ok p → o ≡ some p.row
unfolding validate_period ◌>>=◌
validate_period-found none p h = cc
validate_period-found (some row) p h =
    let sound = (validate_period-IsSound row).at p h in rw (sound.same_row) refl

period_for_receipt-Names :
    (get_item : Read) (part : String) (receipt : Dict)
    → Ensures (Names get_item part receipt) (period_for_receipt get_item part receipt)
unfolding period_for_receipt is_paid_receipt
period_for_receipt-Names get_item part receipt = Ensures-raise_if _ _ _ λ paid_receipt.
    Ensures-require _ _ _ λ sk hs. Ensures-raise_if _ _ _ λ shape.
      Ensures-require _ _ _ λ revision hr. Ensures-bind _ _ λ k hk. Ensures-bind _ _ λ p hp.
        Ensures-raise_if _ _ _ λ same. Ensures-raise_if _ _ _ λ number.
          Ensures-require _ _ _ λ access ha. Ensures-require _ _ _ λ until hu.
            Ensures-raise_if _ _ _ λ late. Ensures-ok _ (record {
              admitted = ground arith;
              bought = ground arith;
              sort_key = sk;
              named = text_of-text _ sk hs;
              stored = validate_period-found _ p hp;
              purchase = k;
              same_purchase = hk;
              same_pk = ground (arith, eq_iff p.pointer.pk k.pk);
              same_sk = ground (arith, eq_iff p.pointer.sk k.sk);
              same_revision = natural-same _ revision p.grant_revision hr (ground arith);
            })

-- The settlement of a paid check is made only for an admitted receipt of a paid check. It finds the
-- period row that the receipt names, of the same purchase and revision, and gives back one reservation
-- in both rows of the period, with the charge.
pub paid_release-Paired :
    (e : Env) (db : Db) (part : String) (receipt : Dict) (charged now : ℕ) (acts : List Action)
    → paid_release e db part receipt charged now ≡ ok acts
    → (p : Period) × Names db.authority part receipt p
      × Paired p.row (negsuc 0) (pos charged) now acts
unfolding paid_release
paid_release-Paired e db part receipt charged now =
    (Ensures-bind _ _ λ p hp. Ensures-require _ _ _ λ sk hs. record {
      at = λ acts h. (
        p,
        (period_for_receipt-Names db.authority part receipt).at p hp,
        paired_counter_actions-Paired _ _ _ p.row (negsuc 0) (pos charged) now acts h,
      );
    }).at

pub less-one : (n : ℕ) → pos (n + 1) +ℤ negsuc 0 ≡ pos n
less-one n = ground arith

-- a release of a reservation in a trial's period, with its charge
pub trial_release-written :
    (table : String) (k : Key) (receipt row : Dict) (charged used r : ℕ)
    → natural (lookup "usedChecks" row) ≡ some used
    → natural (lookup "reservedChecks" row) ≡ some (r + 1)
    → written (trial_release table k receipt charged) (some row)
      ≡ some (
          put "usedChecks"
            (decimal (pos (used + charged)))
            (put "reservedChecks" (decimal (pos r)) row))
unfolding trial_release changes
trial_release-written table k receipt row charged used r hu hr =
    let freed = put "reservedChecks" (decimal (pos r)) row in
    let first = change-add "reservedChecks" (negsuc 0) (r + 1) row hr in
    let second = change-add "usedChecks" (pos charged) used freed (simp get-put hu) in
    changes-step _ (add "usedChecks" (pos charged) ∷ []) row freed
      (first ∙ ap (λ z. some (put "reservedChecks" (decimal z) row)) (less-one r))
    ∙ changes-step _ [] freed _ second

-- A check of a trial that is reserved and then settled leaves the reserved checks of its period as
-- they were and adds the charge to the used ones.
pub trial_release-trial_reservation :
    (table : String) (k : Key) (a : Allowance) (receipt : Dict) (charged now : ℕ)
    → natural (lookup "usedChecks" a.row) ≡ some a.used_checks
    → natural (lookup "reservedChecks" a.row) ≡ some a.reserved_checks
    → (held after : Dict) × (written (trial_reservation table k a now) (some a.row) ≡ some held)
      × (written (trial_release table k receipt charged) (some held) ≡ some after)
      × (natural (lookup "reservedChecks" after) ≡ some a.reserved_checks)
      × (natural (lookup "usedChecks" after) ≡ some (a.used_checks + charged))
trial_release-trial_reservation table k a receipt charged now used reserved =
    let r = a.reserved_checks in
    let held = put "reservedChecks" (decimal (pos (r + 1))) a.row in
    (
      held,
      put "usedChecks" (decimal (pos (a.used_checks + charged)))
          (put "reservedChecks" (decimal (pos r)) held),
      trial_reservation-written table k a now reserved,
      trial_release-written table k receipt held charged a.used_checks r (simp get-put used)
          (simp (get-put, natural-decimal)),
      simp (get-put, natural-decimal),
      simp (get-put, natural-decimal),
    )

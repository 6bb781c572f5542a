-- ===== src/Authority/Usage/Pairs.antt =====
-- The global row and the period row move together: after an accepted pair of counter actions the
-- two rows agree again, so that the next pair is not refused.
use amt_trust_check_radar_la.Base.{
  ℕ, ◌≤◌, String, ◌≡◌, refl, ap, subst, sym, ◌∙◌, true, false, Option, some, List, [], ◌∷◌, ok,
  Ensures, Ensures-bind, Ensures-require, Ensures-raise_if, Ensures-ok, arith,
}
use amt_trust_check_radar_la.Python.{ℤ, pos, ◌+ℤ◌, of_ℤ, decimal, dict, Dict, put}
use amt_trust_check_radar_la.Dynamo.{Key, key_dict, Action, written}
use amt_trust_check_radar_la.Authority.Usage.Row.{Usage, valid_key, validate}
use amt_trust_check_radar_la.Authority.Usage.RowFacts.{validate-IsSound}
use amt_trust_check_radar_la.Authority.Usage.Moves.{
  Moved, counter_action-Moved, counters-written, natural-decimal,
}
use amt_trust_check_radar_la.Authority.Usage.Writes.{validate-Parts}
use amt_trust_check_radar_la.Authority.Usage.Keys.{own_key-eq, valid_key-key_dict}
use amt_trust_check_radar_la.Authority.Usage.PeriodWrites.{
  validate_period-IsSound, validate_period-put_reserved, validate_period-put_used,
}
use amt_trust_check_radar_la.Authority.Usage.Actions.{Read, read, Period, validate_period}
use amt_trust_check_radar_la.Authority.Usage.Counters.{
  agrees, matching_usage, global_for_period, global_actions, local_counter_action,
  paired_counter_actions,
}

-- both rows of a funded period before and after
pub record Paired (period : Dict) (rδ uδ : ℤ) (now : ℕ) (acts : List Action) : Type 0 where
  pub local : Action
  pub shared : Action
  pub two : acts ≡ local ∷ shared ∷ []
  pub before : Period
  pub after : Period
  pub observed : Usage
  pub usage : Moved observed.row rδ uδ now shared
  pub read_before : validate_period (some period) ≡ ok before
  pub agreed_before : agrees usage.before before ≡ true
  pub wrote : written local (some period) ≡ some after.row
  pub read_after : validate_period (some after.row) ≡ ok after
  pub agreed_after : agrees usage.after after ≡ true

-- the pair of rows that is read before a pair of actions is computed
record Matching (get_item : Read) (period : Dict) (now : ℕ) (found : Option Usage) : Type 0 where
  p : Period
  u : Usage
  p_ok : validate_period (some period) ≡ ok p
  u_ok : read get_item p.pointer now false ≡ ok u
  agree : agrees u p ≡ true
  found_u : found ≡ some u

matching-parts :
    (get_item : Read) (p : Period) (now : ℕ)
    → Ensures
        (λ u. (read get_item p.pointer now false ≡ ok u) × (agrees u p ≡ true))
        (matching_usage get_item p now)
unfolding matching_usage
matching-parts get_item p now =
    Ensures-bind _ _ λ u hu. Ensures-raise_if _ _ _ λ ha. Ensures-ok _ (hu, ground arith)

global-Matching :
    (get_item : Read) (period : Dict) (now : ℕ) (found : Option Usage)
    → global_for_period get_item period now false ≡ ok found
    → Matching get_item period now found
unfolding global_for_period
global-Matching get_item period now =
    (Ensures-bind _ _ λ p hp. Ensures-bind _ _ λ u hu.
      let (h, a) = (matching-parts get_item p now).at u hu in
      Ensures-ok _ (record { p = p; u = u; p_ok = hp; u_ok = h; agree = a; found_u = refl })).at

-- Reading the rows again finds them in agreement: the numbers of both moved by the same deltas.
agrees-moved :
    (u u' : Usage) (p : Period) (rδ uδ : ℤ) (row : Dict)
    → agrees u p ≡ true
    → pos u.reserved_checks +ℤ rδ ≡ pos u'.reserved_checks
    → pos u.used_checks +ℤ uδ ≡ pos u'.used_checks
    → u'.access_end ≡ u.access_end
    → u'.start_epoch ≡ u.start_epoch
    → u'.end_epoch ≡ u.end_epoch
    → agrees u'
        (record p { row = row; used_checks = u'.used_checks; reserved_checks = u'.reserved_checks })
      ≡ true
unfolding agrees
agrees-moved u u' p rδ uδ row h hr hu ha hs he = ground arith

key-eq : (a b : Key) → a.pk ≡ b.pk → a.sk ≡ b.sk → a ≡ b
key-eq a b p q = ground arith

-- a row that `read` returns, under the key that it was read by
record Found (u : Usage) (now : ℕ) : Type 0 where
  key : Key
  key_ok : valid_key (dict (key_dict key)) ≡ ok key
  row_ok : validate (dict u.row) (dict (key_dict key)) now false ≡ ok u

read-Found :
    (get_item : Read) (pointer : Key) (now : ℕ) (u : Usage)
    → read get_item pointer now false ≡ ok u
    → Found u now
unfolding read
read-Found get_item pointer now =
    (Ensures-bind _ _ λ k hk. Ensures-bind _ _ λ row hrow. record {
      at = λ u hu.
          let parts = validate-Parts row (dict (key_dict k)) now false u hu in
          record {
            key = k;
            key_ok = valid_key-key_dict _ k hk;
            row_ok = subst (λ x. validate x (dict (key_dict k)) now false ≡ ok u) parts.row_dict hu;
          };
    }).at

-- The counter action reads the row as it was found.
before-eq :
    (u : Usage) (rδ uδ : ℤ) (now : ℕ) (act : Action)
    → Found u now
    → (m : Moved u.row rδ uδ now act) → m.before ≡ u
before-eq u rδ uδ now act f m =
    let parts = validate-Parts (dict u.row) (dict (key_dict f.key)) now false u f.row_ok in
    let (pk, sk) =
      own_key-eq (dict u.row) (dict (key_dict f.key)) now false u m.pointer parts m.own in
    let same : parts.key ≡ f.key = cc (parts.key_ok, f.key_ok) in
    let e : m.pointer ≡ f.key = key-eq m.pointer parts.key pk sk ∙ same in
    let h =
      subst (λ x. validate (dict u.row) (dict (key_dict x)) now false ≡ ok m.before) e
        m.read_before in
    cc (h, f.row_ok)

module _ (table : String) (key : Key) (period : Dict) (rδ uδ : ℤ) (now : ℕ) (p : Period) (u : Usage)
    (act : Action) (p_ok : validate_period (some period) ≡ ok p) (agree : agrees u p ≡ true)
    (m : Moved u.row rδ uδ now act) (same : m.before ≡ u) where
  agree_before : agrees m.before p ≡ true
  agree_before = subst (λ x. agrees x p ≡ true) (sym same) agree

  -- the period row with both counters moved
  period_after : Period
  period_after = record p {
    row =
        put "usedChecks" (decimal (pos p.used_checks +ℤ uδ))
          (put "reservedChecks" (decimal (pos p.reserved_checks +ℤ rδ)) period);
    used_checks = m.after.used_checks;
    reserved_checks = m.after.reserved_checks;
  }

  same_used : m.before.used_checks ≡ p.used_checks
  unfolding agrees
  same_used = let h = agree_before in ground arith

  same_reserved : m.before.reserved_checks ≡ p.reserved_checks
  unfolding agrees
  same_reserved = let h = agree_before in ground arith

  period_valid : validate_period (some period_after.row) ≡ ok period_after
  unfolding period_after
  period_valid =
      let sound =
        validate-IsSound (dict m.after.row) (dict (key_dict m.pointer)) now false m.after
          m.read_after in
      let r =
        subst (λ x. pos x +ℤ rδ ≡ pos m.after.reserved_checks) same_reserved m.reserved_moved in
      let n = subst (λ x. pos x +ℤ uδ ≡ pos m.after.used_checks) same_used m.used_moved in
      let grows = subst (λ x. x ≤ m.after.used_checks) same_used m.used_grows in
      let v = decimal (pos p.reserved_checks +ℤ rδ) in
      let first =
        validate_period-put_reserved period p v m.after.reserved_checks p_ok
          (natural-decimal _ _ (ap of_ℤ r)) (let l = sound.within_limit in omega arith) in
      validate_period-put_used (put "reservedChecks" v period) _ _ m.after.used_checks first
        (natural-decimal _ _ (ap of_ℤ n)) sound.within_limit

  local-Paired : Paired period rδ uδ now (local_counter_action table key period rδ uδ ∷ act ∷ [])
  unfolding period_after
  local-Paired =
      let s = (validate_period-IsSound period).at p p_ok in
      record {
        local = local_counter_action table key period rδ uδ;
        shared = act;
        two = refl;
        before = p;
        after = period_after;
        observed = u;
        usage = m;
        read_before = p_ok;
        agreed_before = agree_before;
        wrote =
            counters-written table key period rδ uδ p.used_checks p.reserved_checks s.used_read
              s.reserved_read;
        read_after = period_valid;
        agreed_after =
            agrees-moved m.before m.after p rδ uδ _ agree_before m.reserved_moved m.used_moved
              m.same_window m.same_start m.same_end;
      }

shared_action :
    (table : String) (u : Usage) (rδ uδ : ℤ) (now : ℕ)
    → Ensures
        (λ acts. (act : Action) × (acts ≡ act ∷ []) × Moved u.row rδ uδ now act)
        (global_actions table (some u) rδ uδ now)
unfolding global_actions
shared_action table u rδ uδ now =
    Ensures-bind _ _ λ a ha. Ensures-ok _ (a, refl, counter_action-Moved table u.row rδ uδ now a ha)

-- A pair of counter actions that is accepted, without leave for an expired period, moves the used
-- and the reserved checks of the period row and of the global row by the same deltas; the global row
-- passes its check before and after, and the two rows agree before and after.
pub paired_counter_actions-Paired :
    (table : String) (get_item : Read) (key : Key) (period : Dict) (rδ uδ : ℤ) (now : ℕ)
    (acts : List Action)
    → paired_counter_actions table get_item key period rδ uδ now false ≡ ok acts
    → Paired period rδ uδ now acts
unfolding paired_counter_actions
paired_counter_actions-Paired table get_item key period rδ uδ now =
    (Ensures-bind _ _ λ found hf.
      let g = global-Matching get_item period now found hf in
      Ensures-raise_if _ _ _ λ hz. Ensures-require _ _ _ λ held hh. Ensures-bind _ _ λ left hl.
        Ensures-bind _ _ λ rest hr.
          let shared =
            (shared_action table g.u rδ uδ now).at rest
              (subst (λ x. global_actions table x rδ uδ now ≡ ok rest) g.found_u hr) in
          let same =
            before-eq g.u rδ uδ now shared.0 (read-Found get_item g.p.pointer now g.u g.u_ok)
              shared.2 in
          Ensures-ok _ (
            subst (λ x. Paired period rδ uδ now (local_counter_action table key period rδ uδ ∷ x))
              (sym shared.1)
              (local-Paired table key period rδ uδ now g.p g.u shared.0 g.p_ok g.agree shared.2
                same))).at

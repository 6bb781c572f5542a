-- ===== src/Authority/Usage/Moves.antt =====
-- What a counter action does to the row that it was computed from.
use amt_trust_check_radar_la.Base.{
  ℕ, ◌+◌, ◌≤◌, ◌<◌, String, ◌≡◌, ◌∙◌, refl, [], ◌∷◌, true, false, ◌&&◌, ltb, leb, some, ok,
  Ensures-bind, Ensures-require, Ensures-raise_if, Ensures-ok, arith,
}
use amt_trust_check_radar_la.Python.{
  ℤ, pos, ◌+ℤ◌, of_ℤ, of_ℤ-some, decimal, dict, Dict, put, lookup, natural, get-put,
}
use amt_trust_check_radar_la.Dynamo.{
  Key, key_dict, Action, add, written, changes, change-add, changes-step,
}
use amt_trust_check_radar_la.Authority.Policy.{paid_completed_checks}
use amt_trust_check_radar_la.Authority.Usage.Row.{Usage, valid_key, validate}
use amt_trust_check_radar_la.Authority.Usage.RowFacts.{validate-IsSound}
use amt_trust_check_radar_la.Authority.Usage.Writes.{
  write_reserved, write_used, validate-write_reserved, validate-write_used,
}
use amt_trust_check_radar_la.Authority.Usage.Counters.{
  own_key, local_counter_action, counter_action, is_positive,
}

pub natural-decimal : (z : ℤ) (n : ℕ) → of_ℤ z ≡ some n → natural (decimal z) ≡ some n
unfolding natural
natural-decimal z n h = h

-- Both counters move by their deltas, and nothing else is written.
pub counters-written :
    (table : String) (k : Key) (d : Dict) (rδ uδ : ℤ) (n r : ℕ)
    → natural (lookup "usedChecks" d) ≡ some n
    → natural (lookup "reservedChecks" d) ≡ some r
    → written (local_counter_action table k d rδ uδ) (some d)
      ≡ some (
          put "usedChecks" (decimal (pos n +ℤ uδ)) (put "reservedChecks" (decimal (pos r +ℤ rδ)) d))
unfolding local_counter_action changes
counters-written table k d rδ uδ n r hn hr =
    let v = decimal (pos r +ℤ rδ) in
    let first = change-add "reservedChecks" rδ r d hr in
    let then_used = add "usedChecks" uδ ∷ [] in
    let second = change-add "usedChecks" uδ n (put "reservedChecks" v d) (simp get-put hn) in
    changes-step (add "reservedChecks" rδ) then_used d _ first
    ∙ changes-step (add "usedChecks" uδ) [] (put "reservedChecks" v d) _ second

-- the global row before and after a counter action that was accepted
pub record Moved (observed : Dict) (rδ uδ : ℤ) (now : ℕ) (act : Action) : Type 0 where
  pub pointer : Key
  pub before : Usage
  pub after : Usage
  pub own : valid_key (dict (own_key observed)) ≡ ok pointer
  pub read_before : validate (dict observed) (dict (key_dict pointer)) now false ≡ ok before
  pub wrote : written act (some before.row) ≡ some after.row
  pub read_after : validate (dict after.row) (dict (key_dict pointer)) now false ≡ ok after
  pub reserved_moved : pos before.reserved_checks +ℤ rδ ≡ pos after.reserved_checks
  pub used_moved : pos before.used_checks +ℤ uδ ≡ pos after.used_checks
  pub used_grows : before.used_checks ≤ after.used_checks
  pub same_start : after.start_epoch ≡ before.start_epoch
  pub same_end : after.end_epoch ≡ before.end_epoch
  pub same_window : after.access_end ≡ before.access_end
  pub same_expiry : after.expires_at ≡ before.expires_at
  pub in_window : is_positive rδ ≡ true → now < before.access_end

module _ (table : String) (observed : Dict) (rδ uδ : ℤ) (now : ℕ) (k : Key) (u : Usage)
    (more reserved : ℕ) where
  moved :
      valid_key (dict (own_key observed)) ≡ ok k
      → validate (dict observed) (dict (key_dict k)) now false ≡ ok u
      → of_ℤ uδ ≡ some more
      → of_ℤ (pos u.reserved_checks +ℤ rδ) ≡ some reserved
      → ltb paid_completed_checks (u.used_checks + more + reserved) ≡ false
      → (is_positive rδ && leb u.access_end now) ≡ false
      → Moved observed rδ uδ now (local_counter_action table k u.row rδ uδ)
  moved hk hu hm hr hl hw =
      let le : u.used_checks + more + reserved ≤ paid_completed_checks = ground arith in
      let sound = validate-IsSound (dict observed) (dict (key_dict k)) now false u hu in
      let v = decimal (pos u.reserved_checks +ℤ rδ) in
      let w = decimal (pos u.used_checks +ℤ uδ) in
      let total = u.used_checks + more in
      let first =
        validate-write_reserved (dict observed) (dict (key_dict k)) now false u v reserved hu
          (natural-decimal _ reserved hr) (omega arith) in
      record {
        pointer = k;
        before = u;
        after = write_used w total (write_reserved v reserved u);
        own = hk;
        read_before = hu;
        wrote =
            counters-written table k u.row rδ uδ u.used_checks u.reserved_checks sound.used_read
              sound.reserved_read;
        read_after =
            validate-write_used (dict (put "reservedChecks" v u.row)) (dict (key_dict k)) now false
              (write_reserved v reserved u) w total first
              (rw (of_ℤ-some uδ more hm) (natural-decimal (pos total) total refl)) le;
        reserved_moved = of_ℤ-some (pos u.reserved_checks +ℤ rδ) reserved hr;
        used_moved = rw (of_ℤ-some uδ more hm) refl;
        used_grows = omega arith;
        same_start = refl;
        same_end = refl;
        same_window = refl;
        same_expiry = refl;
        in_window = λ positive. ground arith;
      }

-- An accepted counter action leaves a row that passes the same check, with both counters moved by
-- exactly the deltas; nothing is reserved outside the access window.
pub counter_action-Moved :
    (table : String) (observed : Dict) (rδ uδ : ℤ) (now : ℕ) (act : Action)
    → counter_action table observed rδ uδ now ≡ ok act
    → Moved observed rδ uδ now act
unfolding counter_action
counter_action-Moved table observed rδ uδ now =
    (Ensures-bind _ _ λ k hk. Ensures-bind _ _ λ u hu. Ensures-require _ _ _ λ more hm.
      Ensures-require _ _ _ λ reserved hr. Ensures-raise_if _ _ _ λ hl.
        Ensures-raise_if _ _ _ λ hw.
          Ensures-ok _ (moved table observed rδ uδ now k u more reserved hk hu hm hr hl hw)).at

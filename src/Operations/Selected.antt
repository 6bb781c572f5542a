-- ===== src/Operations/Selected.antt =====
-- The captures of a selected account, and the order of rejection counts.
use amt_trust_check_radar_la.Base.{
  ℕ, ◌≤◌, ◌<◌, ◌≡◌, ◌∙◌, sym, ap, subst, String, true, ◌&&◌, not, Option, none, some, List, [], ◌∷◌,
  ◌++◌, length, ltb, leb, str_eq, eq_iff, ok, bind-inverse, require-inverse, raise_if-inverse,
  ok-injective, arith,
}
use mathlib.Core.List.{append-nil, append_assoc}
use amt_trust_check_radar_la.Python.{Value, dict, Dict, lookup, is_text}
use amt_trust_check_radar_la.Operations.Facts.{Event, Rejection}
use amt_trust_check_radar_la.Operations.Scope.{validate_scope, selected_dev}
use amt_trust_check_radar_la.Operations.Rejections.{
  same_window, replaces, reconcile_rejection_snapshot,
}
use amt_trust_check_radar_la.Operations.Report.{
  Report, Capture, Selected, put_reference, take_capture, take_captures, aggregate_day,
  aggregate_selected_captures, max_batch_facts,
}

-- the capture is one of the development environment, and not expired
pub record Current (as_of : ℕ) (raw : Option Capture) : Type 0 where
  pub capture : Capture
  pub validated : raw ≡ some capture
  pub of_dev : capture.reference.environment ≡ "dev"
  pub accepted_before : capture.reference.accepted_at ≤ as_of
  pub not_expired : as_of < capture.reference.expires_at

abbrev pub AllCurrent : ℕ → List (Option Capture) → Type 0
AllCurrent as_of [] = Unit
AllCurrent as_of (raw ∷ captures) = Current as_of raw × AllCurrent as_of captures

abbrev events_of : Option Capture → List (Option Event)
events_of none = []
events_of (some c) = c.events

abbrev pub all_events : List (Option Capture) → List (Option Event)
all_events [] = []
all_events (raw ∷ captures) = events_of raw ++ all_events captures

module _ (as_of : ℕ) where
  take_capture-Current :
      (raw : Option Capture) (s t : Selected)
      → take_capture as_of raw s ≡ ok t
      → Current as_of raw × (t.events ≡ s.events ++ events_of raw)
  unfolding take_capture
  take_capture-Current raw s t h =
      let (c, is, h0) = require-inverse raw _ _ h in
      let (dev, h1) = raise_if-inverse (not (str_eq c.reference.environment "dev")) _ _ h0 in
      let (early, h2) = raise_if-inverse (ltb as_of c.reference.accepted_at) _ _ h1 in
      let (late, h3) = raise_if-inverse (leb c.reference.expires_at as_of) _ _ h2 in
      let (references, p, h4) = bind-inverse (put_reference c.reference s.references) _ h3 in
      let (fits, h5) =
        raise_if-inverse (ltb max_batch_facts (length (s.events ++ c.events))) _ _ h4 in
      (
        record {
          capture = c;
          validated = is;
          of_dev = (eq_iff c.reference.environment "dev").0 (ground arith);
          accepted_before = ground arith;
          not_expired = ground arith;
        },
        rw is (ap (λ (x : Selected). x.events) (sym (ok-injective h5))),
      )

  take_captures-Current :
      (captures : List (Option Capture)) (s t : Selected)
      → take_captures as_of captures s ≡ ok t
      → AllCurrent as_of captures × (t.events ≡ s.events ++ all_events captures)
  unfolding take_captures
  take_captures-Current [] s t h =
      (tt, ap (λ (x : Selected). x.events) (sym (ok-injective h)) ∙ sym (append-nil s.events))
  take_captures-Current (raw ∷ captures) s t h =
      let (u, e, h1) = bind-inverse (take_capture as_of raw s) _ h in
      let (current, first) = take_capture-Current raw s u e in
      let (others, rest) = take_captures-Current captures u t h1 in
      (
        (current, others),
        rest ∙ ap (λ l. l ++ all_events captures) first ∙ append_assoc s.events (events_of raw) _,
      )

-- A report of selected captures is that of the day for their events, one capture after the other;
-- its scope is the selected population, and every capture is of the development environment,
-- accepted no later than the calculation and not expired.
pub aggregate_selected_captures-Current :
    (day_bounds : String → Option (ℕ × ℕ)) (captures : List (Option Capture)) (local_day : String)
    (as_of : ℕ) (source_scope : Value) (r : Report)
    → aggregate_selected_captures day_bounds captures local_day as_of source_scope ≡ ok r
    → (scope : Dict) × (validate_scope source_scope "dev" ≡ some scope)
      × (is_text selected_dev (lookup "population" scope) ≡ true)
      × AllCurrent as_of captures
      × (aggregate_day day_bounds (all_events captures) [] local_day "dev" as_of (some (dict scope))
          ≡ ok r)
unfolding aggregate_selected_captures
aggregate_selected_captures-Current day_bounds captures local_day as_of source_scope r h =
    let (few, h0) = raise_if-inverse (ltb max_batch_facts (length captures)) _ _ h in
    let (scope, valid, h1) = require-inverse (validate_scope source_scope "dev") _ _ h0 in
    let (population, h2) =
      raise_if-inverse (not (is_text selected_dev (lookup "population" scope))) _ _ h1 in
    let (s, taken, h3) = bind-inverse (take_captures as_of captures _) _ h2 in
    let (current, all) = take_captures-Current as_of captures _ s taken in
    (
      scope,
      valid,
      ground arith,
      current,
      subst (λ l. aggregate_day day_bounds l [] local_day "dev" as_of (some (dict scope)) ≡ ok r)
          all h3,
    )

-- what a replaced count owes to the one before it
pub record Replaced (old new r : Rejection) : Type 0 where
  pub is_new : r ≡ new
  pub window_kept : same_window old new ≡ true
  pub environment_kept : old.environment ≡ new.environment
  pub not_fewer : old.rejected_count ≤ new.rejected_count

-- A rejection count is replaced only by one of the same window, service, reason and environment that
-- is not lower, which is then the result; if two facts replace one another they have the same count.
pub reconcile_rejection_snapshot-Replaced :
    (old new r : Rejection)
    → reconcile_rejection_snapshot (some (some old)) (some new) ≡ ok r
    → Replaced old new r
      × ((s : Rejection)
          → reconcile_rejection_snapshot (some (some new)) (some old) ≡ ok s
          → old.rejected_count ≡ new.rejected_count)
unfolding reconcile_rejection_snapshot replaces
reconcile_rejection_snapshot-Replaced old new r h =
    let (same, h1) =
      raise_if-inverse (not (same_window old new && str_eq old.environment new.environment)) _ _
        h in
    let (more, h2) = raise_if-inverse (ltb new.rejected_count old.rejected_count) _ _ h1 in
    (
      record {
        is_new = sym (ok-injective h2);
        window_kept = ground arith;
        environment_kept = (eq_iff old.environment new.environment).0 (ground arith);
        not_fewer = ground arith;
      },
      λ s k.
          let (back, k1) =
            raise_if-inverse (not (same_window new old && str_eq new.environment old.environment)) _
              _ k in
          let (fewer, k2) = raise_if-inverse (ltb old.rejected_count new.rejected_count) _ _ k1 in
          ground arith,
    )

-- ===== src/Operations/Replay.antt =====
-- Repeated events change nothing.
use amt_trust_check_radar_la.Base.{
  ℕ, ◌+◌, ◌≤◌, ◌≡◌, refl, ◌∙◌, subst, length-append, ◌⊎◌, inl, inr, String, true, false, not,
  Option, none, some, List, [], ◌∷◌, ◌++◌, map, length, ltb, str_eq, eq_iff, Outcome, ok, err,
  ◌>>=◌, bind-inverse, require-inverse, raise_if-inverse, ok-injective, eq_refl, arith,
}
use amt_trust_check_radar_la.Python.{Value}
use amt_trust_check_radar_la.Operations.Facts.{
  Event, Rejection, head_of, same_event, same_event_self, Fault,
}
use amt_trust_check_radar_la.Operations.Gather.{
  Batch, empty_batch, store, find_event, place, take_event, gather,
}
use amt_trust_check_radar_la.Operations.Report.{calculate, aggregate_day, max_batch_facts}

abbrev pub Among : Event → List (Option Event) → Type 0
Among e [] = ⊥
Among e (raw ∷ events) = (raw ≡ some e) ⊎ Among e events

abbrev pub AllAmong : List Event → List (Option Event) → Type 0
AllAmong [] events = Unit
AllAmong (e ∷ es) events = Among e events × AllAmong es events

module _ (environment : String) (as_of : ℕ) where
  -- the batch has the event, which the guards pass
  record Known (e : Event) (b : Batch) : Type 0 where
    old : Event
    found : find_event (head_of e).event_id b.ids ≡ some old
    same : same_event old e ≡ true
    at_home : str_eq (head_of e).environment environment ≡ true
    in_time : ltb as_of (head_of e).event_time ≡ false

  take_event-Known :
      (e : Event) (b : Batch) → Known e b → take_event environment as_of (some e) b ≡ ok b
  unfolding take_event place ◌>>=◌
  take_event-Known e b k = rw (k.at_home) (rw (k.in_time) (rw (k.found) (rw (k.same) refl)))

  place-Known :
      (o : Option Event) (e : Event) (b c : Batch)
      → find_event (head_of e).event_id b.ids ≡ o
      → str_eq (head_of e).environment environment ≡ true
      → ltb as_of (head_of e).event_time ≡ false
      → place o e b ≡ ok c
      → Known e c
  unfolding place
  place-Known none e b c f home time h =
      let (stored, s, kept) = bind-inverse (store e b) _ h in
      subst (Known e) (ok-injective kept) (record {
        old = e;
        found = rw (eq_refl ((head_of e).event_id)) refl;
        same = same_event_self e;
        at_home = home;
        in_time = time;
      })
  place-Known (some old) e b c f home time h =
      let (same, kept) = raise_if-inverse (not (same_event old e)) _ _ h in
      subst (Known e) (ok-injective kept)
        (record { old = old; found = f; same = ground arith; at_home = home; in_time = time })

  take_event-learns :
      (e : Event) (raw : Option Event) (b c : Batch)
      → raw ≡ some e
      → take_event environment as_of raw b ≡ ok c
      → Known e c
  unfolding take_event
  take_event-learns e raw b c is h =
      let (f, s, h0) = require-inverse raw _ _ h in
      let (home, h1) = raise_if-inverse (not (str_eq (head_of f).environment environment)) _ _ h0 in
      let (time, h2) = raise_if-inverse (ltb as_of (head_of f).event_time) _ _ h1 in
      let known : Known f c =
        place-Known (find_event (head_of f).event_id b.ids) f b c refl (ground arith) time h2 in
      subst (λ x. Known x c) (cc) known

  place-keeps :
      (o : Option Event) (e f : Event) (b c : Batch)
      → find_event (head_of f).event_id b.ids ≡ o
      → place o f b ≡ ok c
      → Known e b
      → Known e c
  unfolding place
  place-keeps none e f b c found h k =
      let (stored, s, kept) = bind-inverse (store f b) _ h in
      subst (Known e) (ok-injective kept) (record {
        old = k.old;
        found = ground (arith, eq_iff (head_of f).event_id (head_of e).event_id, k.found);
        same = k.same;
        at_home = k.at_home;
        in_time = k.in_time;
      })
  place-keeps (some old) e f b c found h k =
      let (same, kept) = raise_if-inverse (not (same_event old f)) _ _ h in
      subst (Known e) (ok-injective kept) k

  take_event-keeps :
      (e : Event) (raw : Option Event) (b c : Batch)
      → take_event environment as_of raw b ≡ ok c
      → Known e b
      → Known e c
  unfolding take_event
  take_event-keeps e raw b c h k =
      let (f, s, h0) = require-inverse raw _ _ h in
      let (home, h1) = raise_if-inverse _ _ _ h0 in
      let (time, h2) = raise_if-inverse _ _ _ h1 in
      place-keeps (find_event (head_of f).event_id b.ids) e f b c refl h2 k

  gather-keeps :
      (e : Event) (events : List (Option Event)) (b c : Batch)
      → gather environment as_of events b ≡ ok c
      → Known e b
      → Known e c
  unfolding gather
  gather-keeps e [] b c h k = subst (Known e) (ok-injective h) k
  gather-keeps e (raw ∷ events) b c h k =
      let (taken, t, h1) = bind-inverse (take_event environment as_of raw b) _ h in
      gather-keeps e events taken c h1 (take_event-keeps e raw b taken t k)

  gather-learns :
      (e : Event) (events : List (Option Event)) (b c : Batch)
      → gather environment as_of events b ≡ ok c
      → Among e events
      → Known e c
  unfolding gather
  gather-learns e [] b c h m = absurd m
  gather-learns e (raw ∷ events) b c h (inl m) =
      let (taken, t, h1) = bind-inverse (take_event environment as_of raw b) _ h in
      gather-keeps e events taken c h1 (take_event-learns e raw b taken m t)
  gather-learns e (raw ∷ events) b c h (inr m) =
      let (taken, t, h1) = bind-inverse (take_event environment as_of raw b) _ h in
      gather-learns e events taken c h1 m

  -- repeated events, once the batch has them all
  abbrev AllKnown : List Event → Batch → Type 0
  AllKnown [] b = Unit
  AllKnown (e ∷ es) b = Known e b × AllKnown es b

  gather-again :
      (es : List Event) (b : Batch)
      → AllKnown es b
      → gather environment as_of (map some es) b ≡ ok b
  unfolding gather ◌>>=◌
  gather-again [] b k = refl
  gather-again (e ∷ es) b k = rw (take_event-Known e b (k.0)) (gather-again es b k.1)

  all-learned :
      (es : List Event) (events : List (Option Event)) (b c : Batch)
      → gather environment as_of events b ≡ ok c
      → AllAmong es events
      → AllKnown es c
  all-learned [] events b c h m = tt
  all-learned (e ∷ es) events b c h m =
      (gather-learns e events b c h m.0, all-learned es events b c h m.1)

  gather-append :
      (xs ys : List (Option Event)) (b : Batch)
      → gather environment as_of (xs ++ ys) b
        ≡ (gather environment as_of xs b >>= gather environment as_of ys)
  unfolding gather ◌>>=◌
  gather-append [] ys b = refl
  gather-append (x ∷ xs) ys b =
      elim (take_event environment as_of x b)
        as (λ o.
          (o >>= gather environment as_of (xs ++ ys))
          ≡ ((o >>= gather environment as_of xs) >>= gather environment as_of ys)) [
            | ok taken ↦ gather-append xs ys taken
            | err e ↦ refl
          ]

  again :
      (o : Outcome Fault Batch) (es : List Event)
      → ((c : Batch) → o ≡ ok c → AllKnown es c)
      → (o >>= gather environment as_of (map some es)) ≡ o
  unfolding ◌>>=◌
  again (ok b) es k = gather-again es b (k b refl)
  again (err e) es k = refl

  gather-replay :
      (events : List (Option Event)) (es : List Event) (b : Batch)
      → AllAmong es events
      → gather environment as_of (events ++ map some es) b ≡ gather environment as_of events b
  gather-replay events es b m =
      gather-append events (map some es) b
      ∙ again (gather environment as_of events b) es (λ c e. all-learned es events b c e m)

leb→ltb : (a b : ℕ) → a ≤ b → ltb b a ≡ false
leb→ltb a b h = ground arith

module _ (day_bounds : String → Option (ℕ × ℕ)) where
  -- Events that are repeated at the end of a batch, as often as may be, leave the outcome of the day
  -- as it was, a refusal included, as long as the facts stay within the bound of a batch.
  pub aggregate_day-replay :
      (events : List (Option Event)) (es : List Event) (snapshots : List (Option Rejection))
      (local_day environment : String) (as_of : ℕ) (source_scope : Option Value)
      → AllAmong es events
      → length (events ++ map some es) + length snapshots ≤ max_batch_facts
      → aggregate_day day_bounds
          (events ++ map some es)
          snapshots
          local_day
          environment
          as_of
          source_scope
        ≡ aggregate_day day_bounds events snapshots local_day environment as_of source_scope
  unfolding aggregate_day calculate
  aggregate_day-replay events es snapshots local_day environment as_of source_scope m fits =
      let fewer : length events + length snapshots ≤ max_batch_facts =
        omega (arith, length-append {0} events (map some es)) in
      rw (gather-replay environment as_of events es empty_batch m)
        (rw (leb→ltb _ _ fits) (rw (leb→ltb _ _ fewer) refl))

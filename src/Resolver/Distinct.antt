-- ===== src/Resolver/Distinct.antt =====
-- No URL is observed twice.
use amt_trust_check_radar_la.Base.{
  none, ok-injective, ℕ, zero, suc, String, Bool, true, false, ◌&&◌, ◌||◌, not, Option, some, List,
  [], ◌∷◌, ◌++◌, ◌≡◌, refl, subst, sym, ap, any, str_eq, eq_iff, eq_refl, Outcome, ok, err, Ensures,
  Ensures-bind, Ensures-raise_if, Ensures-ok, Bool-cases, inl, inr, arith,
}
use amt_trust_check_radar_la.Resolver.Loop.{
  Failure, value_error, raised, followed, Stop, Target, Hop, Outside, Observation, Run, is_member,
  visit, counted, observe, is_redirect, is_success, location_to_follow, Turn, next, return, stopped,
  completed, redirected, answered, connected, entered, enter, connect, turn, loop, start, fuel,
  resolve,
}

abbrev pub distinct : List Hop → Bool
distinct [] = true
distinct (h ∷ hs) = not (any (λ x. str_eq h.url x.url) hs) && distinct hs

any-snoc : (p : Hop → Bool) (hs : List Hop) (h : Hop) → any p (hs ++ (h ∷ [])) ≡ (any p hs || p h)
any-snoc p [] h = ground arith
any-snoc p (x ∷ hs) h = ground (arith, any-snoc p hs h)

member-same :
    (a b : String) (vs : List String) → str_eq a b ≡ true → is_member a vs ≡ is_member b vs
member-same a b vs h = ap (λ x. is_member x vs) ((eq_iff a b).0 h)

abbrev tracked : List String → List Hop → Bool
tracked vs [] = true
tracked vs (h ∷ hs) = is_member h.url vs && tracked vs hs

-- A URL that was not visited makes another hop.
distinct-snoc :
    (vs : List String) (hs : List Hop) (h : Hop)
    → tracked vs hs ≡ true
    → is_member h.url vs ≡ false
    → distinct hs ≡ true
    → distinct (hs ++ (h ∷ [])) ≡ true
distinct-snoc vs [] h t n d = refl
distinct-snoc vs (x ∷ hs) h t n d = ground (
  arith,
  any-snoc (λ y. str_eq x.url y.url) hs h,
  member-same x.url h.url vs,
  distinct-snoc vs hs h,
)

tracked-more :
    (v : String) (vs : List String) (hs : List Hop)
    → tracked vs hs ≡ true
    → tracked (v ∷ vs) hs ≡ true
tracked-more v vs [] t = refl
tracked-more v vs (h ∷ hs) t = ground (arith, tracked-more v vs hs)

tracked-snoc :
    (vs : List String) (hs : List Hop) (h : Hop)
    → tracked vs hs ≡ true
    → is_member h.url vs ≡ true
    → tracked vs (hs ++ (h ∷ [])) ≡ true
tracked-snoc vs [] h t m = ground arith
tracked-snoc vs (x ∷ hs) h t m = ground (arith, tracked-snoc vs hs h)

record Kept (r : Run) : Type 0 where
  all_visited : tracked r.visited r.result.hops ≡ true
  no_repeat : distinct r.result.hops ≡ true

abbrev Fresh : Turn → Type 0
Fresh (next r) = Kept r
Fresh (return result) = distinct result.hops ≡ true
Fresh raised = Unit

module _ (o : Outside) (target : Target) where
  -- the target is visited now and has no hop so far
  record New (r : Run) : Type 0 where
    old : List String
    visits : r.visited ≡ target.url ∷ old
    unseen : is_member target.url old ≡ false
    tracks : tracked old r.result.hops ≡ true
    apart : distinct r.result.hops ≡ true

  observe-Kept : (status : ℕ) (r : Run) → New r → Kept (observe target status (counted r))
  unfolding observe
  observe-Kept status r new =
      let h : Hop = record { url = target.url; http_status = status } in
      record {
        all_visited =
            subst (λ vs. tracked vs (r.result.hops ++ (h ∷ [])) ≡ true) (sym new.visits)
              (tracked-snoc (target.url ∷ new.old) r.result.hops h
                (tracked-more target.url new.old r.result.hops new.tracks) (simp eq_refl));
        no_repeat = distinct-snoc new.old r.result.hops h new.tracks new.unseen new.apart;
      }

  followed-Fresh : (r : Run) (u : Option String) → Kept r → Fresh (followed target r u)
  followed-Fresh r none kept = tt
  followed-Fresh r (some u) kept = record {
    all_visited = kept.all_visited;
    no_repeat = kept.no_repeat;
  }

  redirected-Fresh : (r : Run) (l : Outcome Stop String) → Kept r → Fresh (redirected o target r l)
  unfolding stopped
  redirected-Fresh r (err s) kept = kept.no_repeat
  redirected-Fresh r (ok l) kept = followed-Fresh r (o.join_location target.url l) kept

  answered-Fresh :
      (r : Run) (a : Outcome Stop (ℕ × Option String))
      → New r
      → Fresh (answered o target (counted r) a)
  unfolding stopped completed
  answered-Fresh r (err s) new = new.apart
  answered-Fresh r (ok (status, location)) new =
      let kept = observe-Kept status r new in
      elim (Bool-cases (is_redirect status)) [
        | inl a ↦ rw a (
            redirected-Fresh (observe target status (counted r))
              (location_to_follow o location (observe target status (counted r)).result.hops) kept)
        | inr a ↦ elim (Bool-cases (is_success status)) [
          | inl b ↦ rw (a, b) kept.no_repeat
          | inr b ↦ rw (a, b) kept.no_repeat
        ]
      ]

  connected-Fresh : (r : Run) (a : Outcome Stop String) → New r → Fresh (connected o target r a)
  unfolding stopped
  connected-Fresh r (err s) new = new.apart
  connected-Fresh r (ok address) new = answered-Fresh r (o.fetch target address) new

  visit-New : (r : Run) → Kept r → is_member target.url r.visited ≡ false → New (visit target r)
  unfolding visit
  visit-New r kept unseen = record {
    old = r.visited;
    visits = refl;
    unseen = unseen;
    tracks = kept.all_visited;
    apart = kept.no_repeat;
  }

enter-unseen :
    (o : Outside) (n : ℕ) (r : Run)
    → Ensures (λ target. is_member target.url r.visited ≡ false) (enter o n r)
unfolding enter
enter-unseen o n r =
    Ensures-raise_if _ _ _ λ a. Ensures-bind _ _ λ t ht. Ensures-raise_if _ _ _ λ u. Ensures-ok t u

entered-Fresh :
    (o : Outside) (r : Run) (a : Outcome Stop Target)
    → Kept r
    → ((t : Target) → a ≡ ok t → is_member t.url r.visited ≡ false)
    → Fresh (entered o r a)
unfolding stopped
entered-Fresh o r (err s) kept unseen = kept.no_repeat
entered-Fresh o r (ok target) kept unseen =
    connected-Fresh o target (visit target r) (connect o target)
      (visit-New o target r kept (unseen target refl))

turn-Fresh : (o : Outside) (n : ℕ) (r : Run) → Kept r → Fresh (turn o n r)
unfolding turn
turn-Fresh o n r kept = entered-Fresh o r (enter o n r) kept (λ t h. (enter-unseen o n r).at t h)

loop-distinct :
    (o : Outside) (left n : ℕ) (r : Run) (result : Observation)
    → Kept r
    → loop o left n r ≡ ok result
    → distinct result.hops ≡ true
unfolding loop
loop-distinct o zero n r result kept h = cc
loop-distinct o (suc left) n r result kept h =
    (elim (turn o n r)
        as (λ t.
          Fresh t
          → ◌≡◌ {A = Outcome Failure Observation}
              (elim t [
                | next s ↦ loop o left (suc n) s
                | return out ↦ ok out
                | raised ↦ err value_error
              ])
              (ok result)
          → distinct result.hops ≡ true) [
            | next s ↦ λ fresh e. loop-distinct o left (suc n) s result fresh e
            | return out ↦ λ fresh e. subst (λ x. distinct x.hops ≡ true) (ok-injective e) fresh
            | raised ↦ λ fresh e. cc
          ])
      (turn-Fresh o n r kept) h

-- The hops of a result have different URLs.
pub resolve-distinct :
    (o : Outside) (url : String) (result : Observation)
    → resolve o url ≡ ok result
    → distinct result.hops ≡ true
unfolding resolve
resolve-distinct o url result h =
    loop-distinct o fuel 0 (start url) result (record { all_visited = refl; no_repeat = refl }) h

-- ===== src/Assessment/Verdicts.antt =====
-- On what a verdict rests, and how many lookups there are.
use amt_trust_check_radar_la.Base.{
  ◌≤◌, ◌≡◌, refl, subst, String, Bool, true, false, ◌&&◌, not, Option, List, [], ◌∷◌, any, length,
  str_eq, eq_iff, Outcome, ok, err, bind-inverse, require-inverse, raise_if-inverse, ok-injective,
  arith,
}
use amt_trust_check_radar_la.Python.{Value, mem_key}
use amt_trust_check_radar_la.Resolver.Loop.{Stop, Target, Hop, Observation}
use amt_trust_check_radar_la.Assessment.Evidence.{Trouble, unavailable, other, distinct_texts}
use amt_trust_check_radar_la.Assessment.Request.{
  Asked, Response, validate_request, validate_resolution, is_shaped, is_valid_resolution, urls,
}
use amt_trust_check_radar_la.Assessment.Assess.{
  World, Assessment, first_of_each, spent, look_all, recover, started, resolved, limited, eligible,
  observed, attempted, assess,
}
use amt_trust_check_radar_la.Assessment.Sound.{
  Looked, look_all-Looked, Sound, look_all-hops, concluded-Sound, Rests, no_verdict, unresolved,
  resolved_by,
}

-- A text list that repeats nothing is its own list of first texts.
unseen : List String → List String → Bool
unseen seen [] = true
unseen seen (s ∷ ss) = not (mem_key s seen) && unseen seen ss

unseen-cons :
    (s : String) (seen ss : List String)
    → any (str_eq s) ss ≡ false
    → unseen seen ss ≡ true
    → unseen (s ∷ seen) ss ≡ true
unfolding unseen
unseen-cons s seen [] h k = refl
unseen-cons s seen (t ∷ ss) h k = ground (arith, eq_iff s t, eq_iff t s, unseen-cons s seen ss)

first_of_each-distinct :
    (seen ss : List String)
    → distinct_texts ss ≡ true
    → unseen seen ss ≡ true
    → first_of_each seen ss ≡ ss
unfolding unseen
first_of_each-distinct seen [] d u = refl
first_of_each-distinct seen (s ∷ ss) d u =
    ground (arith, unseen-cons s seen ss, first_of_each-distinct (s ∷ seen) ss)

unseen-nil : (ss : List String) → unseen [] ss ≡ true
unfolding unseen
unseen-nil [] = refl
unseen-nil (s ∷ ss) = unseen-nil ss

length-urls : (hops : List Hop) → length (urls hops) ≡ length hops
length-urls [] = refl
length-urls (h ∷ hops) = omega (arith, length-urls hops)

-- what a resolution that was accepted is known to be
record Fit (o : Observation) : Type 0 where
  few : length o.hops ≤ 6
  each_once : first_of_each [] (urls o.hops) ≡ urls o.hops

validate_resolution-Fit :
    (parse : String → Outcome Stop Target) (answer : Option Response) (check_id initial : String)
    (o : Observation)
    → validate_resolution parse answer check_id initial ≡ ok o
    → Fit o
unfolding validate_resolution is_valid_resolution is_shaped
validate_resolution-Fit parse answer check_id initial o h =
    let (r, some_answer, h1) = require-inverse answer _ _ h in
    let (valid, h2) =
      raise_if-inverse (not (is_valid_resolution parse r check_id initial)) _ _ h1 in
    subst Fit (ok-injective h2) (record {
      few = ground arith;
      each_once =
          first_of_each-distinct [] (urls r.observation.hops) (ground arith)
            (unseen-nil (urls r.observation.hops));
    })

module _ (w : World) (asked : Asked) where
  eligible-Sound :
      (o : Observation) (us : List String)
      → us ≡ urls o.hops
      → Sound w asked o
          (recover w.provider_calls (eligible w asked o (resolved o (started asked)) us))
  eligible-Sound o [] same = record {
    grounds = no_verdict refl;
    hops_counted = refl;
    few_lookups = omega arith;
  }
  eligible-Sound o (url ∷ rest) same =
      let a : Assessment = limited (resolved o (started asked)) in
      concluded-Sound w asked o a refl refl refl (length-urls o.hops) (look_all w 0 (url ∷ rest) a)
        (subst (λ us. Looked w 0 us a (look_all w 0 (url ∷ rest) a)) same
          (look_all-Looked w 0 (url ∷ rest) a))
        (look_all-hops w 0 (url ∷ rest) a)

  observed-Rests :
      (m : Outcome Trouble Observation)
      → ((o : Observation)
          → m ≡ ok o
          → (answer : Option Response) × (w.resolve asked.check_id asked.target.url ≡ ok answer)
            × (validate_resolution w.parse_target answer asked.check_id asked.target.url ≡ ok o))
      → Rests w asked (recover w.provider_calls (observed w asked (started asked) m))
  observed-Rests (err (unavailable r)) h = unresolved refl refl
  observed-Rests (err other) h = unresolved refl refl
  observed-Rests (ok o) h =
      let (answer, answered, valid) = h o refl in
      let fit : Fit o =
        validate_resolution-Fit w.parse_target answer asked.check_id asked.target.url o valid in
      resolved_by answer o answered valid (fit.few)
        (eligible-Sound o (first_of_each [] (urls o.hops)) fit.each_once)

  attempted-Rests : Rests w asked (recover w.provider_calls (attempted w asked))
  unfolding attempted
  attempted-Rests = observed-Rests _ λ o h.
      let (u, s, h1) = bind-inverse (spent (w.expired 0)) _ h in
      let (answer, r, h2) = bind-inverse (w.resolve asked.check_id asked.target.url) _ h1 in
      (answer, r, h2)

  -- The assessment of an accepted request has a verdict only after its resolution was accepted, with
  -- at most six hops and no more lookups than hops. That no threat is known rests on a complete
  -- chain, a request for the full URL, and one lookup of each observed URL that found nothing. A high
  -- risk rests on a lookup that found a threat which is current, before which the lookups found
  -- nothing and after which there is none.
  pub assess-Rests :
      (event : Value)
      → validate_request w.parse_target w.path_of w.query_of event ≡ ok asked
      → Rests w asked (assess w event)
  unfolding assess
  assess-Rests event h = rw h attempted-Rests

-- ===== src/Assessment/Chains.antt =====
-- What the turns of the resolver keep of the demands of `validate_resolution`.
use amt_trust_check_radar_la.Base.{
  ok-injective, ℕ, zero, suc, ◌≡◌, refl, subst, inl, inr, String, Option, List, [], ◌∷◌, eq_refl,
  Outcome, ok, err, Ensures, Ensures-ok, Ensures-bind, Ensures-raise_if, Bool-cases,
}
use amt_trust_check_radar_la.Resolver.Loop.{
  Failure, value_error, raised, Stop, Target, Hop, Outside, Observation, Run, visit, counted,
  observe, is_redirect, is_success, location_to_follow, next, return, answered, connected,
  validated, first_ipv4, entered, enter, connect, turn, loop, start, fuel, resolve,
}
use amt_trust_check_radar_la.Assessment.Request.{is_reason}
use amt_trust_check_radar_la.Assessment.Stops.{
  StopOk, Lawful, Stops, Stops-ok, Stops-bind, Stops-raise_if, Stops-require, Stops-required,
}
use amt_trust_check_radar_la.Assessment.Hops.{
  Chain, Fits, valid_hops-redirects, stopped-Fits, early-Fits, visit-Chain, Aimed, Answered,
  observe-Answered, Kept, late-Fits, redirected-Kept, completed-Fits,
}

-- the stops that the loop raises itself
timed_out : StopOk (record { reason = "TIME_BUDGET_EXCEEDED"; status = "partial" })
unfolding is_reason
timed_out = record { reason_ok = inr refl; status_ok = inl refl }

in_loop : StopOk (record { reason = "REDIRECT_LOOP"; status = "partial" })
unfolding is_reason
in_loop = record { reason_ok = inr refl; status_ok = inl refl }

no_answer : StopOk (record { reason = "DNS_ANSWER_UNAVAILABLE"; status = "partial" })
unfolding is_reason
no_answer = record { reason_ok = inr refl; status_ok = inl refl }

only_ipv6 : StopOk (record { reason = "IPV6_ONLY_UNSUPPORTED"; status = "partial" })
only_ipv6 = record { reason_ok = inl refl; status_ok = inl refl }

no_location : StopOk (record { reason = "MISSING_REDIRECT_LOCATION"; status = "partial" })
unfolding is_reason
no_location = record { reason_ok = inr refl; status_ok = inl refl }

too_many : StopOk (record { reason = "REDIRECT_LIMIT_EXCEEDED"; status = "partial" })
unfolding is_reason
too_many = record { reason_ok = inr refl; status_ok = inl refl }

bad_location : StopOk (record { reason = "INVALID_REDIRECT_LOCATION"; status = "blocked" })
unfolding is_reason
bad_location = record { reason_ok = inr refl; status_ok = inr (inl refl) }

not_supported : StopOk (record { reason = "HTTP_RESPONSE_UNSUPPORTED"; status = "partial" })
unfolding is_reason
not_supported = record { reason_ok = inr refl; status_ok = inl refl }

module _ (o : Outside) (law : Lawful o) where
  location-Stops : (l : Option String) (hops : List Hop) → Stops (location_to_follow o l hops)
  unfolding location_to_follow
  location-Stops l hops = Stops-require l _ _ no_location λ s. Stops-raise_if _ _ _ no_location (
      Stops-raise_if _ _ _ too_many
        (Stops-raise_if _ _ _ bad_location (Stops-raise_if _ _ _ bad_location (Stops-ok s))))

  validated-Stops : (answers : List String) → Stops (validated o answers)
  validated-Stops [] = Stops-ok []
  validated-Stops (a ∷ answers) =
      Stops-bind (o.public_address a) _ (law.address_stops a)
        λ first. Stops-bind (validated o answers) _ (validated-Stops answers) λ rest. Stops-ok _

  connect-Stops : (t : Target) → Stops (connect o t)
  unfolding connect
  connect-Stops t = Stops-bind (o.addresses t.host) _ (law.lookup_stops t.host) λ answers.
      Stops-raise_if _ _ _ no_answer (
        Stops-bind (validated o answers) _ (validated-Stops answers)
          λ checked. Stops-required (first_ipv4 checked) _ only_ipv6)

  enter-Stops : (n : ℕ) (r : Run) → Stops (enter o n r)
  unfolding enter
  enter-Stops n r = Stops-raise_if _ _ _ timed_out (
      Stops-bind (o.parse_target r.current) _ (law.parse_stops r.current)
        λ t. Stops-raise_if _ _ _ in_loop (Stops-ok t))

  -- a target that a turn enters with
  enter-canonical : (n : ℕ) (r : Run) → Ensures (λ t. o.parse_target r.current ≡ ok t) (enter o n r)
  unfolding enter
  enter-canonical n r =
      Ensures-raise_if _ _ _ λ a. Ensures-bind _ _ λ t e. Ensures-raise_if _ _ _ λ u. Ensures-ok t e

  module _ (initial : String) (begin : Target) (begins : o.parse_target initial ≡ ok begin)
      (at_first : begin.url ≡ initial) where
    enter-Aimed :
        (r : Run) (t : Target)
        → Chain o initial r
        → o.parse_target r.current ≡ ok t
        → Aimed o initial t r
    enter-Aimed r t c e = record {
      own = rw (law.canonical r.current t e) (rw (law.no_fragment r.current t e) (simp eq_refl));
      first = λ nothing. cc (c.at_start nothing);
    }

    answered-Kept :
        (t : Target) (r : Run)
        → Chain o initial r
        → Aimed o initial t r
        → (address : String) (a : Outcome Stop (ℕ × Option String)) → o.fetch t address ≡ a
        → Kept o initial (answered o t (counted r) a)
    answered-Kept t r c aim address (err s) e =
        stopped-Fits o initial s (counted r) (law.fetch_stops t address s e)
          (λ fine. valid_hops-redirects o initial r.result.hops c.redirects) c.from_start c.warned
          c.last_seen c.going_on
    answered-Kept t r c aim address (ok (status, location)) e =
        let seen = observe t status (counted r) in
        let made : Answered o initial t status seen = observe-Answered o initial t status r c aim in
        elim (Bool-cases (is_redirect status)) [
          | inl a ↦ rw a (
              redirected-Kept o initial t status seen
                (location_to_follow o location seen.result.hops) made a
                (location-Stops location seen.result.hops))
          | inr a ↦ elim (Bool-cases (is_success status)) [
            | inl b ↦ rw (a, b) (completed-Fits o initial t status seen made b)
            | inr b ↦ rw (a, b) (late-Fits o initial t status _ seen not_supported made)
          ]
        ]

    connected-Kept :
        (t : Target) (r : Run)
        → Chain o initial r
        → Aimed o initial t r
        → (a : Outcome Stop String) → Stops a
        → Kept o initial (connected o t r a)
    connected-Kept t r c aim (err s) k = early-Fits o initial s r (k s refl) c
    connected-Kept t r c aim (ok address) k =
        answered-Kept t r c aim address (o.fetch t address) refl

    entered-Kept :
        (r : Run)
        → Chain o initial r
        → (a : Outcome Stop Target) → Stops a
        → ((t : Target) → a ≡ ok t → o.parse_target r.current ≡ ok t)
        → Kept o initial (entered o r a)
    unfolding visit
    entered-Kept r c (err s) k e = early-Fits o initial s r (k s refl) c
    entered-Kept r c (ok t) k e =
        let aim = enter-Aimed r t c (e t refl) in
        connected-Kept t (visit t r) (visit-Chain o initial t r c)
          (record { own = aim.own; first = aim.first }) (connect o t) (connect-Stops t)

    turn-Kept : (n : ℕ) (r : Run) → Chain o initial r → Kept o initial (turn o n r)
    unfolding turn
    turn-Kept n r c =
        entered-Kept r c (enter o n r) (enter-Stops n r) (λ t e. (enter-canonical n r).at t e)

    loop-Fits :
        (left n : ℕ) (r : Run) (result : Observation)
        → Chain o initial r
        → loop o left n r ≡ ok result
        → Fits o initial result
    unfolding loop
    loop-Fits zero n r result c h = cc
    loop-Fits (suc left) n r result c h =
        (elim (turn o n r)
            as (λ t.
              Kept o initial t
              → ◌≡◌ {A = Outcome Failure Observation}
                  (elim t [
                    | next s ↦ loop o left (suc n) s
                    | return out ↦ ok out
                    | raised ↦ err value_error
                  ])
                  (ok result)
              → Fits o initial result) [
                | next s ↦ λ kept e. loop-Fits left (suc n) s result kept e
                | return out ↦ λ kept e. subst (Fits o initial) (ok-injective e) kept
                | raised ↦ λ kept e. cc
              ])
          (turn-Kept n r c) h

    pub resolve-Fits :
        (result : Observation) → resolve o initial ≡ ok result → Fits o initial result
    unfolding resolve
    resolve-Fits result h =
        loop-Fits fuel 0 (start initial) result
          (record {
            redirects = refl;
            from_start = refl;
            at_start = λ e. refl;
            warned = inl refl;
            one_each = refl;
            last_seen = refl;
            going_on = refl;
          })
          h

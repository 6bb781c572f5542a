-- ===== src/Resolver/Bounds.antt =====
-- The loop of `resolve` ends within its fuel, and its result is bounded.
use amt_trust_check_radar_la.Base.{
  none, subst, ℕ, zero, suc, ◌+◌, ◌≤◌, String, true, false, Option, some, List, [], ◌∷◌, ◌++◌, ◌≡◌,
  refl, ◌∙◌, length, length-append, Outcome, ok, err, Ensures, Ensures-require, Ensures-raise_if,
  Ensures-ok, Bool-cases, inl, inr, arith,
}
use amt_trust_check_radar_la.Resolver.Loop.{
  Failure, value_error, raised, followed, Stop, Target, Hop, Outside, Observation, Run, visit,
  counted, observe, is_redirect, is_success, location_to_follow, Turn, next, return, stopped,
  completed, redirected, answered, connected, entered, enter, connect, turn, loop, start, fuel,
  resolve,
}

-- how the observed chain ends
pub data Ending (result : Observation) : Type 0 where
  unfinished : result.http_chain_complete ≡ false → Ending result
  finished :
      (earlier : List Hop) (last : Hop)
      → result.http_chain_complete ≡ true
      → result.hops ≡ earlier ++ (last ∷ [])
      → result.last_observed_url ≡ some last.url
      → is_success last.http_status ≡ true
      → Ending result

-- Each hop took one request, and the last request may have failed.
pub record Bounded (result : Observation) : Type 0 where
  pub answered_requests : length result.hops ≤ result.request_count
  pub last_request : result.request_count ≤ length result.hops + 1
  pub few_requests : result.request_count ≤ 6
  pub ending : Ending result

-- the run at the start of a turn
record Ready (n : ℕ) (r : Run) : Type 0 where
  hops_made : length r.result.hops ≡ n
  requests_made : r.result.request_count ≡ n
  going_on : r.result.http_chain_complete ≡ false
  within : n ≤ 5

-- an answer of the transport that redirects to a location which cannot be joined with the URL that it
-- came from
pub record Unjoined (o : Outside) : Type 0 where
  pub target : Target
  pub address : String
  pub status : ℕ
  pub location : String
  pub hops : List Hop
  pub answer : o.fetch target address ≡ ok (status, some location)
  pub redirects : is_redirect status ≡ true
  pub followed_to : location_to_follow o (some location) hops ≡ ok location
  pub refused : o.join_location target.url location ≡ none

abbrev Good : Outside → ℕ → Turn → Type 0
Good o n (next r) = Ready (suc n) r
Good o n (return result) = Bounded result
Good o n raised = Unjoined o

stopped-Bounded :
    (s : Stop) (r : Run)
    → length r.result.hops ≤ r.result.request_count
    → r.result.request_count ≤ length r.result.hops + 1
    → r.result.request_count ≤ 6
    → r.result.http_chain_complete ≡ false
    → Bounded (stopped s r)
unfolding stopped
stopped-Bounded s r a b c e = record {
  answered_requests = a;
  last_request = b;
  few_requests = c;
  ending = unfinished e;
}

follow-few :
    (o : Outside) (location : Option String) (hops : List Hop)
    → Ensures (λ l. length hops ≤ 5) (location_to_follow o location hops)
unfolding location_to_follow
follow-few o location hops = Ensures-require _ _ _ λ l hl. Ensures-raise_if _ _ _ λ a.
    Ensures-raise_if _ _ _
      λ few. Ensures-raise_if _ _ _ λ b. Ensures-raise_if _ _ _ λ c. Ensures-ok l (ground arith)

followed-Same :
    (o : Outside) (location : Option String) (hops : List Hop)
    → Ensures (λ l. location ≡ some l) (location_to_follow o location hops)
unfolding location_to_follow
followed-Same o location hops = Ensures-require _ _ _ λ l hl. Ensures-raise_if _ _ _ λ a.
    Ensures-raise_if _ _ _
      λ few. Ensures-raise_if _ _ _ λ b. Ensures-raise_if _ _ _ λ c. Ensures-ok l hl

follow-same :
    (o : Outside) (location : Option String) (hops : List Hop) (l : String)
    → location_to_follow o location hops ≡ ok l
    → location ≡ some l
follow-same o location hops l =
    Ensures.at {P = λ x. location ≡ some x} (followed-Same o location hops) l

module _ (o : Outside) (target : Target) (n : ℕ) where
  -- the run after an answer
  record Seen (r : Run) : Type 0 where
    hops_seen : length r.result.hops ≡ suc n
    requests_seen : r.result.request_count ≡ suc n
    open_seen : r.result.http_chain_complete ≡ false
    bound : n ≤ 5

  stop_late : (s : Stop) (r : Run) → Seen r → Bounded (stopped s r)
  stop_late s r seen =
      let h = seen.hops_seen in
      let q = seen.requests_seen in
      let b = seen.bound in
      stopped-Bounded s r (omega arith) (omega arith) (omega arith) seen.open_seen

  followed-Good :
      (r : Run) (address : String) (status : ℕ) (location : Option String) (l : String)
      (u : Option String)
      → Seen r
      → o.fetch target address ≡ ok (status, location)
      → is_redirect status ≡ true
      → location_to_follow o location r.result.hops ≡ ok l
      → o.join_location target.url l ≡ u
      → Good o n (followed target r u)
  followed-Good r address status location l none seen fetched redirects h e =
      let same = follow-same o location r.result.hops l h in
      record {
        target = target;
        address = address;
        status = status;
        location = l;
        hops = r.result.hops;
        answer = subst (λ x. o.fetch target address ≡ ok (status, x)) same fetched;
        redirects = redirects;
        followed_to = subst (λ x. location_to_follow o x r.result.hops ≡ ok l) same h;
        refused = e;
      }
  followed-Good r address status location l (some url) seen fetched redirects h e = record {
    hops_made = seen.hops_seen;
    requests_made = seen.requests_seen;
    going_on = seen.open_seen;
    within =
        let m = seen.hops_seen in
        let f = (follow-few o location r.result.hops).at l h in omega arith;
  }

  redirected-Good :
      (r : Run) (address : String) (status : ℕ) (location : Option String) (l : Outcome Stop String)
      → Seen r
      → o.fetch target address ≡ ok (status, location)
      → is_redirect status ≡ true
      → location_to_follow o location r.result.hops ≡ l
      → Good o n (redirected o target r l)
  redirected-Good r address status location (err s) seen fetched redirects h = stop_late s r seen
  redirected-Good r address status location (ok l) seen fetched redirects h =
      followed-Good r address status location l (o.join_location target.url l) seen fetched
        redirects h refl

  observe-Seen : (status : ℕ) (r : Run) → Ready n r → Seen (observe target status (counted r))
  unfolding observe
  observe-Seen status r ready =
      let q = ready.requests_made in
      record {
        hops_seen =
            length-append r.result.hops (record { url = target.url; http_status = status } ∷ [])
            ∙ (let h = ready.hops_made in omega arith);
        requests_seen = omega arith;
        open_seen = ready.going_on;
        bound = ready.within;
      }

  completed-Bounded :
      (status : ℕ) (r : Run)
      → Ready n r
      → is_success status ≡ true
      → Bounded (completed (observe target status (counted r)))
  unfolding completed observe
  completed-Bounded status r ready success =
      let seen = observe-Seen status r ready in
      let h = seen.hops_seen in
      let q = seen.requests_seen in
      let b = seen.bound in
      record {
        answered_requests = omega arith;
        last_request = omega arith;
        few_requests = omega arith;
        ending =
            finished r.result.hops (record { url = target.url; http_status = status }) refl refl
              refl success;
      }

  after-status :
      (address : String) (status : ℕ) (location : Option String) (r : Run)
      → Ready n r
      → o.fetch target address ≡ ok (status, location)
      → Good o n (answered o target (counted r) (ok (status, location)))
  after-status address status location r ready fetched =
      let seen = observe target status (counted r) in
      let made = observe-Seen status r ready in
      elim (Bool-cases (is_redirect status)) [
        | inl a ↦ rw a (
            redirected-Good seen address status location
              (location_to_follow o location seen.result.hops) made fetched a refl)
        | inr a ↦ elim (Bool-cases (is_success status)) [
          | inl b ↦ rw (a, b) (completed-Bounded status r ready b)
          | inr b ↦ rw (a, b) (stop_late _ seen made)
        ]
      ]

  -- a run in which a request was made and not answered
  stop_asked : (s : Stop) (r : Run) → Ready n r → Bounded (stopped s (counted r))
  stop_asked s r ready =
      let h = ready.hops_made in
      let q = ready.requests_made in
      let b = ready.within in
      stopped-Bounded s (counted r) (omega arith) (omega arith) (omega arith) ready.going_on

  answered-Good :
      (r : Run) (address : String) (a : Outcome Stop (ℕ × Option String))
      → Ready n r
      → o.fetch target address ≡ a
      → Good o n (answered o target (counted r) a)
  answered-Good r address (err s) ready fetched = stop_asked s r ready
  answered-Good r address (ok (status, location)) ready fetched =
      after-status address status location r ready fetched

  stop_early : (s : Stop) (r : Run) → Ready n r → Bounded (stopped s r)
  stop_early s r ready =
      let h = ready.hops_made in
      let q = ready.requests_made in
      let b = ready.within in
      stopped-Bounded s r (omega arith) (omega arith) (omega arith) ready.going_on

  connected-Good :
      (r : Run) (a : Outcome Stop String) → Ready n r → Good o n (connected o target r a)
  connected-Good r (err s) ready = stop_early s r ready
  connected-Good r (ok address) ready = answered-Good r address (o.fetch target address) ready refl

  visit-Ready : (r : Run) → Ready n r → Ready n (visit target r)
  unfolding visit
  visit-Ready r ready = record {
    hops_made = ready.hops_made;
    requests_made = ready.requests_made;
    going_on = ready.going_on;
    within = ready.within;
  }

entered-Good :
    (o : Outside) (n : ℕ) (r : Run) (a : Outcome Stop Target) → Ready n r → Good o n (entered o r a)
entered-Good o n r (err s) ready =
    stop_early o (record { url = ""; scheme = ""; host = "" }) n s r ready
entered-Good o n r (ok target) ready =
    connected-Good o target n (visit target r) (connect o target) (visit-Ready o target n r ready)

turn-Good : (o : Outside) (n : ℕ) (r : Run) → Ready n r → Good o n (turn o n r)
unfolding turn
turn-Good o n r ready = entered-Good o n r (enter o n r) ready

-- the ways in which the code ends
pub data Ends (o : Outside) (found : Outcome Failure Observation) : Type 0 where
  returns : (result : Observation) → found ≡ ok result → Bounded result → Ends o found
  raises : found ≡ err value_error → Unjoined o → Ends o found

loop-Ends :
    (o : Outside) (left n : ℕ) (r : Run) → Ready n r → left + n ≡ fuel → Ends o (loop o left n r)
unfolding loop
loop-Ends o zero n r ready enough = let b = ready.within in absurd (omega arith)
loop-Ends o (suc left) n r ready enough =
    (elim (turn o n r)
        as (λ t.
          Good o n t
          → Ends o (elim t [
            | next s ↦ loop o left (suc n) s
            | return result ↦ ok result
            | raised ↦ err value_error
          ])) [
            | next s ↦ λ good. loop-Ends o left (suc n) s good (omega arith)
            | return result ↦ λ good. returns result refl good
            | raised ↦ λ good. raises refl good
          ])
      (turn-Good o n r ready)

-- Six turns are enough for every transport: either a result is returned, with one request for each hop
-- and at most one more, at most six in all, complete only if the last hop was answered with success;
-- or a ValueError is raised, and then the transport redirects to some location that may be followed
-- but cannot be joined with its base.
pub resolve-Bounded : (o : Outside) (url : String) → Ends o (resolve o url)
unfolding resolve
resolve-Bounded o url =
    loop-Ends o fuel 0 (start url)
      (record { hops_made = refl; requests_made = refl; going_on = refl; within = omega arith })
      refl

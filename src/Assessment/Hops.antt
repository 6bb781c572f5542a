-- ===== src/Assessment/Hops.antt =====
-- The hops of the resolver's loop at each of its steps, as the assessment will test them.
use amt_trust_check_radar_la.Base.{
  none, Option, ℕ, ◌≡◌, refl, ◌⊎◌, inl, inr, String, Bool, true, false, ◌&&◌, some, List, [], ◌∷◌,
  ◌++◌, leb, all, length, length-append, str_eq, eq_iff, eq_refl, Outcome, ok, err, arith,
}
use amt_trust_check_radar_la.Resolver.Loop.{
  raised, followed, Stop, Target, Hop, Outside, Observation, Run, visit, counted, observe,
  was_https, is_redirect, is_success, Turn, next, return, stopped, completed, redirected,
}
use amt_trust_check_radar_la.Assessment.Evidence.{is_empty}
use amt_trust_check_radar_la.Assessment.Request.{
  is_canonical, last_url, same_url, ends_well, starts_at, valid_hop, valid_hops, is_consistent,
}
use amt_trust_check_radar_la.Assessment.Stops.{
  ipv6_only, StopOk, Warned, not_complete, added-Warned, completed_reasons, snoc_not_empty, Reasons,
  stopped-Reasons,
}

-- the statuses that `validate_resolution` admits
abbrev pub ranged : Hop → Bool
ranged h = leb 100 h.http_status && leb h.http_status 599

redirect-ranged : (h : Hop) → is_redirect h.http_status ≡ true → ranged h ≡ true
redirect-ranged h r = ground arith

all-last :
    (p : Hop → Bool) (hops : List Hop) (h : Hop) → all p (hops ++ (h ∷ [])) ≡ true → p h ≡ true
all-last p [] h a = ground arith
all-last p (x ∷ hops) h a = all-last p hops h (ground arith)

pub ranged-valid :
    (parse : String → Outcome Stop Target) (hops : List Hop)
    → valid_hops parse hops ≡ true
    → all ranged hops ≡ true
unfolding valid_hops valid_hop
ranged-valid parse [] h = refl
ranged-valid parse (x ∷ hops) h = ground (arith, ranged-valid parse hops)

module _ (o : Outside) (initial : String) where
  abbrev pub good : Hop → Bool
  good h = ranged h && is_canonical (o.parse_target h.url) h.url

  abbrev pub redirecting : Hop → Bool
  redirecting h = good h && is_redirect h.http_status

  -- the run at the start of a turn
  pub record Chain (r : Run) : Type 0 where
    pub redirects : all redirecting r.result.hops ≡ true
    pub from_start : starts_at initial r.result.hops ≡ true
    pub at_start : is_empty r.result.hops ≡ true → r.current ≡ initial
    pub warned : Warned r.result.warnings
    pub one_each : r.result.request_count ≡ length r.result.hops
    pub last_seen : same_url r.result.last_observed_url (last_url r.result.hops) ≡ true
    pub going_on : r.result.http_chain_complete ≡ false

  -- the result that is returned
  pub record Fits (a : Observation) : Type 0 where
    pub hops_fit : all ranged a.hops ≡ true → valid_hops o.parse_target a.hops ≡ true
    pub from_start : starts_at initial a.hops ≡ true
    pub warned : Warned a.warnings
    pub reasons : (a.reason_codes ≡ ipv6_only ∷ []) ⊎ Reasons a.reason_codes
    pub status :
        (a.resolution_status ≡ "http_chain_complete")
        ⊎ ((a.resolution_status ≡ "partial")
            ⊎ ((a.resolution_status ≡ "blocked") ⊎ (a.resolution_status ≡ "invalid_input")))
    pub consistent : is_consistent a ≡ true

  pub valid_hops-redirects :
      (hops : List Hop) → all redirecting hops ≡ true → valid_hops o.parse_target hops ≡ true
  unfolding valid_hops valid_hop
  valid_hops-redirects [] h = refl
  valid_hops-redirects (x ∷ []) h = ground arith
  valid_hops-redirects (x ∷ (y ∷ hops)) h = ground (arith, valid_hops-redirects (y ∷ hops))

  valid_hops-snoc :
      (hops : List Hop) (h : Hop)
      → all redirecting hops ≡ true
      → good h ≡ true
      → valid_hops o.parse_target (hops ++ (h ∷ [])) ≡ true
  unfolding valid_hops valid_hop
  valid_hops-snoc [] h r g = ground arith
  valid_hops-snoc (x ∷ []) h r g = ground arith
  valid_hops-snoc (x ∷ (y ∷ hops)) h r g = ground (arith, valid_hops-snoc (y ∷ hops) h)

  all-snoc :
      (p : Hop → Bool) (hops : List Hop) (h : Hop)
      → all p hops ≡ true
      → p h ≡ true
      → all p (hops ++ (h ∷ [])) ≡ true
  all-snoc p [] h a b = ground arith
  all-snoc p (x ∷ hops) h a b = ground (arith, all-snoc p hops h)

  last_url-snoc : (hops : List Hop) (h : Hop) → last_url (hops ++ (h ∷ [])) ≡ some h.url
  last_url-snoc [] h = refl
  last_url-snoc (x ∷ []) h = refl
  last_url-snoc (x ∷ (y ∷ hops)) h = last_url-snoc (y ∷ hops) h

  ends_well-snoc :
      (hops : List Hop) (h : Hop) → ends_well (hops ++ (h ∷ [])) ≡ is_success h.http_status
  ends_well-snoc [] h = refl
  ends_well-snoc (x ∷ []) h = refl
  ends_well-snoc (x ∷ (y ∷ hops)) h = ends_well-snoc (y ∷ hops) h

  starts_at-snoc :
      (hops : List Hop) (h : Hop)
      → starts_at initial hops ≡ true
      → (is_empty hops ≡ true → h.url ≡ initial)
      → starts_at initial (hops ++ (h ∷ [])) ≡ true
  starts_at-snoc [] h s e = (eq_iff h.url initial).1 (e refl)
  starts_at-snoc (x ∷ hops) h s e = s

  -- a result that is stopped, with no request or one more than there are hops
  pub stopped-Fits :
      (s : Stop) (r : Run)
      → StopOk s
      → (all ranged r.result.hops ≡ true → valid_hops o.parse_target r.result.hops ≡ true)
      → starts_at initial r.result.hops ≡ true
      → Warned r.result.warnings
      → same_url r.result.last_observed_url (last_url r.result.hops) ≡ true
      → r.result.http_chain_complete ≡ false
      → Fits (stopped s r)
  unfolding stopped is_consistent
  stopped-Fits s r k valid first warned last open_chain = record {
    hops_fit = valid;
    from_start = first;
    warned = warned;
    reasons = stopped-Reasons s k;
    status = inr k.status_ok;
    consistent = rw (not_complete s.status k.status_ok) (rw (open_chain) (rw last refl));
  }

  -- a stop before the answer of a request
  pub early-Fits : (s : Stop) (r : Run) → StopOk s → Chain r → Fits (stopped s r)
  early-Fits s r k c =
      stopped-Fits s r k (λ fine. valid_hops-redirects r.result.hops c.redirects) c.from_start
        c.warned c.last_seen c.going_on

  visit-Warned :
      (t : Target) (r : Run) → Warned r.result.warnings → Warned (visit t r).result.warnings
  unfolding visit
  visit-Warned t r w =
      added-Warned (was_https r.previous_scheme) (str_eq t.scheme "http") r.result.warnings w

  pub visit-Chain : (t : Target) (r : Run) → Chain r → Chain (visit t r)
  unfolding visit
  visit-Chain t r c = record {
    redirects = c.redirects;
    from_start = c.from_start;
    at_start = c.at_start;
    warned = visit-Warned t r c.warned;
    one_each = c.one_each;
    last_seen = c.last_seen;
    going_on = c.going_on;
  }

  -- the target of a turn
  pub record Aimed (t : Target) (r : Run) : Type 0 where
    pub own : is_canonical (o.parse_target t.url) t.url ≡ true
    pub first : is_empty r.result.hops ≡ true → t.url ≡ initial

  -- the run after an answer
  pub record Answered (t : Target) (status : ℕ) (r : Run) : Type 0 where
    pub hops_fit : all ranged r.result.hops ≡ true → valid_hops o.parse_target r.result.hops ≡ true
    pub all_redirects : is_redirect status ≡ true → all redirecting r.result.hops ≡ true
    pub from_start : starts_at initial r.result.hops ≡ true
    pub not_empty : is_empty r.result.hops ≡ false
    pub warned : Warned r.result.warnings
    pub one_each : r.result.request_count ≡ length r.result.hops
    pub last_seen : same_url r.result.last_observed_url (last_url r.result.hops) ≡ true
    pub going_on : r.result.http_chain_complete ≡ false
    pub end : ends_well r.result.hops ≡ is_success status

  pub observe-Answered :
      (t : Target) (status : ℕ) (r : Run)
      → Chain r
      → Aimed t r
      → Answered t status (observe t status (counted r))
  unfolding observe
  observe-Answered t status r c aim =
      let h : Hop = record { url = t.url; http_status = status } in
      let hops = r.result.hops in
      let is_good : ranged h ≡ true → good h ≡ true = λ fine. rw fine aim.own in
      record {
        hops_fit =
            λ fine. valid_hops-snoc hops h c.redirects (is_good (all-last ranged hops h fine));
        all_redirects = λ red.
            all-snoc redirecting hops h c.redirects (rw (is_good (redirect-ranged h red)) red);
        from_start = starts_at-snoc hops h c.from_start aim.first;
        not_empty = snoc_not_empty hops h;
        warned = c.warned;
        one_each = omega (arith, c.one_each, length-append hops (h ∷ []));
        last_seen = rw (last_url-snoc hops h) (simp eq_refl);
        going_on = c.going_on;
        end = ends_well-snoc hops h;
      }

  abbrev pub Kept : Turn → Type 0
  Kept (next r) = Chain r
  Kept (return result) = Fits result
  Kept raised = Unit

  pub late-Fits :
      (t : Target) (status : ℕ) (s : Stop) (r : Run)
      → StopOk s
      → Answered t status r
      → Fits (stopped s r)
  late-Fits t status s r k a =
      stopped-Fits s r k a.hops_fit a.from_start a.warned a.last_seen a.going_on

  followed-Kept :
      (t : Target) (status : ℕ) (r : Run) (u : Option String)
      → Answered t status r
      → is_redirect status ≡ true
      → Kept (followed t r u)
  followed-Kept t status r none a red = tt
  followed-Kept t status r (some u) a red = record {
    redirects = a.all_redirects red;
    from_start = a.from_start;
    at_start = λ e. cc (a.not_empty, e);
    warned = a.warned;
    one_each = a.one_each;
    last_seen = a.last_seen;
    going_on = a.going_on;
  }

  pub redirected-Kept :
      (t : Target) (status : ℕ) (r : Run) (l : Outcome Stop String)
      → Answered t status r
      → is_redirect status ≡ true
      → ((s : Stop) → l ≡ err s → StopOk s)
      → Kept (redirected o t r l)
  redirected-Kept t status r (err s) a red k = late-Fits t status s r (k s refl) a
  redirected-Kept t status r (ok l) a red k =
      followed-Kept t status r (o.join_location t.url l) a red

  pub completed-Fits :
      (t : Target) (status : ℕ) (r : Run)
      → Answered t status r
      → is_success status ≡ true
      → Fits (completed r)
  unfolding completed is_consistent
  completed-Fits t status r a success = record {
    hops_fit = a.hops_fit;
    from_start = a.from_start;
    warned = a.warned;
    reasons = inr (omega arith, omega arith, completed_reasons);
    status = inl refl;
    consistent = ground (arith, a.end, success, a.one_each, a.last_seen);
  }

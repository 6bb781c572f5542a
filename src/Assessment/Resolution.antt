-- ===== src/Assessment/Resolution.antt =====
-- The resolver's result at the assessment's door: the two functions that deploy side by side.
use amt_trust_check_radar_la.Base.{
  ok-injective, Bool-cases, Outcome, sym, ◌∙◌, ◌≡◌, refl, subst, ◌⊎◌, inl, inr, String, true, false,
  ◌&&◌, some, List, [], ◌∷◌, leb, any, all, length, str_eq, eq_refl, ok, err, ◌>>=◌, arith,
}
use amt_trust_check_radar_la.Resolver.Loop.{Target, Hop, Outside, Observation, Failure, resolve}
use amt_trust_check_radar_la.Resolver.Bounds.{Bounded, Ends, returns, raises, resolve-Bounded}
use amt_trust_check_radar_la.Resolver.Distinct.{distinct, resolve-distinct}
use amt_trust_check_radar_la.Assessment.Evidence.{Trouble, unavailable, distinct_texts}
use amt_trust_check_radar_la.Assessment.Request.{
  Response, valid_hops, is_shaped, is_status, is_warning, is_reason, is_valid_resolution,
  validate_resolution, urls,
}
use amt_trust_check_radar_la.Assessment.Stops.{ipv6_only, Lawful, Warned, Reasons}
use amt_trust_check_radar_la.Assessment.Hops.{Fits, ranged, ranged-valid}
use amt_trust_check_radar_la.Assessment.Chains.{resolve-Fits}

any-urls :
    (s : String) (hops : List Hop)
    → any (str_eq s) (urls hops) ≡ any (λ (x : Hop). str_eq s x.url) hops
any-urls s [] = refl
any-urls s (h ∷ hops) = rw (any-urls s hops) refl

distinct-urls : (hops : List Hop) → distinct hops ≡ true → distinct_texts (urls hops) ≡ true
distinct-urls [] d = refl
distinct-urls (h ∷ hops) d = ground (arith, any-urls h.url hops, distinct-urls hops)

warnings_fit : (ws : List String) → Warned ws → (leb (length ws) 2 && all is_warning ws) ≡ true
warnings_fit ws (inl e) = rw e refl
warnings_fit ws (inr (inl e)) = rw e refl
warnings_fit ws (inr (inr e)) = rw e refl

status_fits :
    (s : String)
    → ((s ≡ "http_chain_complete") ⊎ ((s ≡ "partial") ⊎ ((s ≡ "blocked") ⊎ (s ≡ "invalid_input"))))
    → is_status s ≡ true
status_fits s (inl e) = rw e refl
status_fits s (inr (inl e)) = rw e refl
status_fits s (inr (inr (inl e))) = rw e refl
status_fits s (inr (inr (inr e))) = rw e refl

abbrev pub response_of : String → Observation → Response
response_of check_id o = record {
  check_id = check_id;
  scope = "HTTP_REDIRECTS_ONLY";
  observation = o;
}

ends-Bounded :
    (o : Outside) (result : Observation) {found : Outcome Failure Observation}
    → Ends o found
    → found ≡ ok result
    → Bounded result
ends-Bounded o result (returns other e b) h = subst Bounded (ok-injective (sym e ∙ h)) b
ends-Bounded o result (raises e u) h = cc

module _ (o : Outside) (check_id initial : String) (result : Observation) where
  valid_response :
      Fits o initial result
      → all ranged result.hops ≡ true
      → Bounded result
      → distinct result.hops ≡ true
      → Reasons result.reason_codes
      → is_valid_resolution o.parse_target (response_of check_id result) check_id initial ≡ true
  unfolding is_valid_resolution is_shaped
  valid_response f fine b d r = ground (
    arith,
    eq_refl check_id,
    status_fits result.resolution_status f.status,
    warnings_fit result.warnings f.warned,
    distinct-urls result.hops d,
    f.from_start,
    f.hops_fit fine,
    f.consistent,
    b.answered_requests,
    b.few_requests,
    r,
  )

  refused_reason :
      result.reason_codes ≡ ipv6_only ∷ []
      → is_valid_resolution o.parse_target (response_of check_id result) check_id initial ≡ false
  unfolding is_valid_resolution is_shaped is_reason
  refused_reason e = rw e (ground arith)

  refused_status :
      all ranged result.hops ≡ false
      → is_valid_resolution o.parse_target (response_of check_id result) check_id initial ≡ false
  unfolding is_valid_resolution
  refused_status e = elim (Bool-cases (valid_hops o.parse_target result.hops)) [
    | inl v ↦ cc (ranged-valid o.parse_target result.hops v)
    | inr v ↦ rw v (ground arith)
  ]

abbrev validated : Outside → String → String → Observation → Outcome Trouble Observation
validated o check_id initial result =
    validate_resolution o.parse_target (some (response_of check_id result)) check_id initial

abbrev refusal : Outcome Trouble Observation
refusal = err (unavailable "RESOLVER_RESPONSE_INVALID")

-- what becomes of a result of the resolver
pub data Judged (o : Outside) (check_id initial : String) (result : Observation) : Type 0 where
  accepted : validated o check_id initial result ≡ ok result → Judged o check_id initial result
  only_ipv6 :
      result.reason_codes ≡ "IPV6_ONLY_UNSUPPORTED" ∷ []
      → validated o check_id initial result ≡ refusal
      → Judged o check_id initial result
  other_status :
      all ranged result.hops ≡ false
      → validated o check_id initial result ≡ refusal
      → Judged o check_id initial result

-- What the resolver returns for a canonical URL is accepted as the resolution of a check of that URL,
-- with two exceptions, in which the response is refused as invalid: the destination has IPv6 addresses
-- only, whose reason has a digit, or some answer had a status that is not from 100 to 599. It is assumed
-- that parse_target leaves a parsed URL as it is and drops its fragment, and that the stops of the
-- resolver's surroundings have the reasons and statuses that the resolver documents.
pub resolve-validate_resolution :
    (o : Outside) (check_id initial : String) (begin : Target) (result : Observation)
    → Lawful o
    → o.parse_target initial ≡ ok begin
    → begin.url ≡ initial
    → resolve o initial ≡ ok result
    → Judged o check_id initial result
unfolding validate_resolution ◌>>=◌
resolve-validate_resolution o check_id initial begin result law parsed same h =
    let fits : Fits o initial result = resolve-Fits o law initial begin parsed same result h in
    let bound : Bounded result = ends-Bounded o result (resolve-Bounded o initial) h in
    elim (Bool-cases (all ranged result.hops)) [
      | inr out ↦ other_status out (rw (refused_status o check_id initial result out) refl)
      | inl fine ↦ elim (fits.reasons) [
        | inr reasons ↦ accepted (
            rw
              (valid_response o check_id initial result fits fine bound
                (resolve-distinct o initial result h) reasons)
              refl)
        | inl six ↦ only_ipv6 six (rw (refused_reason o check_id initial result six) refl)
      ]
    ]

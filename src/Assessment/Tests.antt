-- ===== src/Assessment/Tests.antt =====
-- A URL without a redirect, resolved and looked up; and one whose host has IPv6 addresses only.
use amt_trust_check_radar_la.Base.{
  ℕ, ◌≡◌, refl, subst, inl, inr, String, true, false, none, some, [], ◌∷◌, str_eq, if◌then◌else◌,
  Outcome, ok, err, ◌>>=◌, Bool-cases,
}
use amt_trust_check_radar_la.Python.{Value, text, int, pos, dict, end, entry}
use amt_trust_check_radar_la.Resolver.Loop.{
  Stop, Target, Outside, Observation, resolve, loop, turn, enter, visit, connect, observe,
  location_to_follow, stopped, completed,
}
use amt_trust_check_radar_la.Assessment.Evidence.{Evidence, unavailable, evidence, validate_times}
use amt_trust_check_radar_la.Assessment.Request.{
  Asked, has_fragment, validate_request, is_request, validate_resolution, is_valid_resolution,
  is_shaped, is_reason, valid_hops, is_consistent,
}
use amt_trust_check_radar_la.Assessment.Assess.{
  World, Assessment, assess, attempted, look_all, look, earliest, cleared,
}
use amt_trust_check_radar_la.Assessment.Resolution.{
  Judged, response_of, resolve-validate_resolution,
}
use amt_trust_check_radar_la.Assessment.Stops.{StopOk, Lawful}
use amt_trust_check_radar_la.Assessment.Sound.{Rests}
use amt_trust_check_radar_la.Assessment.Verdicts.{assess-Rests}

abbrev site : Target
site = record { url = "https://a.example/"; scheme = "https"; host = "a.example" }

abbrev invalid : Stop
invalid = record { reason = "INVALID_URL"; status = "invalid_input" }

abbrev parse : String → Outcome Stop Target
parse s = if str_eq s "https://a.example/" then ok site else err invalid

abbrev network : ℕ → Outside
network version = record {
  expired = λ n. false;
  parse_target = parse;
  public_address = λ a. ok (record { number = a; version = version });
  join_location = λ base location. some location;
  addresses = λ host. ok ("192.0.1.1" ∷ []);
  fetch = λ t a. ok (200, none);
  utf8_length = λ s. 20;
}

abbrev seen_once : Observation
seen_once = record {
  resolution_status = "http_chain_complete";
  hops = record { url = "https://a.example/"; http_status = 200 } ∷ [];
  last_observed_url = some "https://a.example/";
  http_chain_complete = true;
  warnings = [];
  reason_codes = "HTTP_TERMINAL_OBSERVED" ∷ "BROWSER_NAVIGATION_NOT_EVALUATED" ∷ [];
  request_count = 1;
}

parsed_site : (s : String) (t : Target) → parse s ≡ ok t → site ≡ t
parsed_site s t e = elim (Bool-cases (str_eq s "https://a.example/")) [
  | inl same ↦ let f : ◌≡◌ {A = Outcome Stop Target} (ok site) (ok t) = rw same at e in cc
  | inr differ ↦ let f : ◌≡◌ {A = Outcome Stop Target} (err invalid) (ok t) = rw differ at e in cc
]

parse_stop : (s : String) (e : Stop) → parse s ≡ err e → invalid ≡ e
parse_stop s e h = elim (Bool-cases (str_eq s "https://a.example/")) [
  | inl same ↦ let f : ◌≡◌ {A = Outcome Stop Target} (ok site) (err e) = rw same at h in cc
  | inr differ ↦ let f : ◌≡◌ {A = Outcome Stop Target} (err invalid) (err e) = rw differ at h in cc
]

invalid_ok : StopOk invalid
unfolding is_reason
invalid_ok = record { reason_ok = inr refl; status_ok = inr (inr refl) }

network-Lawful : (version : ℕ) → Lawful (network version)
network-Lawful version = record {
  canonical = λ s t e. subst (λ (x : Target). parse x.url ≡ ok x) (parsed_site s t e) refl;
  no_fragment =
      λ s t e. subst (λ (x : Target). has_fragment x.url ≡ false) (parsed_site s t e) refl;
  parse_stops = λ s e h. subst StopOk (parse_stop s e h) invalid_ok;
  address_stops = λ s e h. cc;
  lookup_stops = λ s e h. cc;
  fetch_stops = λ t a e h. cc;
}

resolve-validate_resolution_example : Judged (network 4) "c1" "https://a.example/" seen_once
unfolding resolve loop turn enter visit connect observe location_to_follow stopped completed ◌>>=◌
resolve-validate_resolution_example =
    resolve-validate_resolution (network 4) "c1" "https://a.example/" site seen_once
      (network-Lawful 4) refl refl refl

abbrev stopped_at_ipv6 : Observation
stopped_at_ipv6 = record seen_once {
  resolution_status = "partial";
  hops = [];
  last_observed_url = none;
  http_chain_complete = false;
  reason_codes = "IPV6_ONLY_UNSUPPORTED" ∷ [];
  request_count = 0;
}

ipv6_resolved : resolve (network 6) "https://a.example/" ≡ ok stopped_at_ipv6
unfolding resolve loop turn enter visit connect observe location_to_follow stopped completed ◌>>=◌
ipv6_resolved = refl

ipv6_refused :
    validate_resolution parse (some (response_of "c1" stopped_at_ipv6)) "c1" "https://a.example/"
    ≡ err (unavailable "RESOLVER_RESPONSE_INVALID")
unfolding validate_resolution is_valid_resolution is_shaped is_reason valid_hops is_consistent ◌>>=◌
ipv6_refused = refl

abbrev nothing_found : Evidence
nothing_found = record {
  threat_types = [];
  observed_at = "2026-07-01T10:00:00Z";
  valid_until = none;
}

abbrev world : World
world = record {
  parse_target = parse;
  path_of = λ s. "/";
  query_of = λ s. "";
  epoch = λ s. if str_eq s "2026-07-01T10:00:00Z" then some 1782900000000000000 else none;
  expired = λ n. false;
  resolve = λ check_id url. ok (some (response_of check_id seen_once));
  lookup = λ n url. ok nothing_found;
  now = λ n. 1782900000000000000;
  provider_calls = 1;
}

abbrev request : Value
request = dict (
    entry "schemaVersion" (int (pos 1)) (
      entry "checkId" (text "c1")
        (entry "url" (text "https://a.example/") (entry "scope" (text "full_url") end))))

abbrev asked : Asked
asked = record { check_id = "c1"; whole = true; target = site }

abbrev verdict_of : Assessment → String × ℕ
verdict_of a = (a.verdict, a.lookup_count)

clear_verdict : verdict_of (assess world request) ≡ ("no_known_threat_detected", 1)
unfolding assess attempted validate_request is_request validate_resolution is_valid_resolution
    is_shaped is_reason valid_hops is_consistent look_all look evidence validate_times earliest
    cleared ◌>>=◌
clear_verdict = refl

assess-Rests_example : Rests world asked (assess world request)
unfolding validate_request is_request ◌>>=◌
assess-Rests_example = assess-Rests world asked request refl

abbrev odd_network : Outside
odd_network = record (network 4) { fetch = λ t a. ok (700, none) }

abbrev odd : Observation
odd = record seen_once {
  resolution_status = "partial";
  hops = record { url = "https://a.example/"; http_status = 700 } ∷ [];
  http_chain_complete = false;
  reason_codes = "HTTP_RESPONSE_UNSUPPORTED" ∷ [];
}

odd_resolved : resolve odd_network "https://a.example/" ≡ ok odd
unfolding resolve loop turn enter visit connect observe location_to_follow stopped completed ◌>>=◌
odd_resolved = refl

odd_refused :
    validate_resolution parse (some (response_of "c1" odd)) "c1" "https://a.example/"
    ≡ err (unavailable "RESOLVER_RESPONSE_INVALID")
unfolding validate_resolution is_valid_resolution is_shaped is_reason valid_hops is_consistent ◌>>=◌
odd_refused = refl

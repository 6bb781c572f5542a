-- ===== src/Resolver/Tests.antt =====
-- A chain of one redirect from http to https.
use amt_trust_check_radar_la.Base.{
  ℕ, String, true, false, Option, none, some, [], ◌∷◌, ◌≡◌, refl, str_eq, if◌then◌else◌, Outcome,
  ok, err, ◌>>=◌,
}
use amt_trust_check_radar_la.Resolver.Loop.{
  Stop, Target, Outside, value_error, Observation, resolve, loop, turn, enter, visit, connect,
  observe, location_to_follow, stopped, completed,
}
use amt_trust_check_radar_la.Resolver.Bounds.{Ends, resolve-Bounded}
use amt_trust_check_radar_la.Resolver.Distinct.{distinct, resolve-distinct}

abbrev parse : String → Outcome Stop Target
parse s =
    if str_eq s "http://a.example/"
    then ok (record { url = s; scheme = "http"; host = "a.example" })
    else if str_eq s "https://b.example/"
    then ok (record { url = s; scheme = "https"; host = "b.example" })
    else err (record { reason = "INVALID_URL"; status = "invalid_input" })

abbrev responds : Target → String → Outcome Stop (ℕ × Option String)
responds t address =
    if str_eq t.host "a.example" then ok (301, some "https://b.example/") else ok (200, none)

abbrev network : Outside
network = record {
  expired = λ n. false;
  parse_target = parse;
  public_address = λ a. ok (record { number = a; version = 4 });
  join_location = λ base location. if str_eq location "http://[" then none else some location;
  addresses = λ host. ok ("192.0.1.1" ∷ []);
  fetch = responds;
  utf8_length = λ s. 20;
}

abbrev seen : Observation
seen = record {
  resolution_status = "http_chain_complete";
  hops =
      record { url = "http://a.example/"; http_status = 301 }
      ∷ record { url = "https://b.example/"; http_status = 200 }
      ∷ [];
  last_observed_url = some "https://b.example/";
  http_chain_complete = true;
  warnings = "UNENCRYPTED_CONNECTION" ∷ [];
  reason_codes = "HTTP_TERMINAL_OBSERVED" ∷ "BROWSER_NAVIGATION_NOT_EVALUATED" ∷ [];
  request_count = 2;
}

resolve-Bounded_example : Ends network (resolve network "http://a.example/")
resolve-Bounded_example = resolve-Bounded network "http://a.example/"

abbrev unjoined : Outside
unjoined = record network { fetch = λ t address. ok (301, some "http://[") }

unjoined_raises : resolve unjoined "http://a.example/" ≡ err value_error
unfolding resolve loop turn enter visit connect observe location_to_follow stopped completed ◌>>=◌
unjoined_raises = refl

resolve-distinct_example : distinct seen.hops ≡ true
unfolding resolve loop turn enter visit connect observe location_to_follow stopped completed ◌>>=◌
resolve-distinct_example = resolve-distinct network "http://a.example/" seen refl

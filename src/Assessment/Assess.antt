-- ===== src/Assessment/Assess.antt =====
-- `assess`: the resolution, one lookup for each observed URL, and the result that each way out leaves.
-- What an exception interrupts keeps the entries that were written before it. The three `finally`,
-- `except Unavailable` and `except Exception` are `recover`.
use amt_trust_check_radar_la.Base.{
  ℕ, suc, ◌+◌, String, Bool, true, false, ◌&&◌, ◌||◌, not, Option, none, some, List, [], ◌∷◌, ◌++◌,
  ltb, length, str_eq, if◌then◌else◌, Outcome, ok, err, ◌>>=◌, ◌>>◌, raise_if, require,
}
use amt_trust_check_radar_la.Python.{Value, text_before, mem_key}
use amt_trust_check_radar_la.Resolver.Loop.{Stop, Target, Observation}
use amt_trust_check_radar_la.Assessment.Evidence.{
  Evidence, Trouble, unavailable, other, is_empty, evidence, is_current,
}
use amt_trust_check_radar_la.Assessment.Request.{
  Refusal, stopped, invalid_request, Asked, Response, validate_request, validate_resolution, urls,
}

-- the code and the services around `assess`: the n-th lookup is that of `lookup n`, and before it
-- `expired (n + 1)` tells whether the budget is spent, as `expired 0` does before the resolution
pub record World : Type 0 where
  pub parse_target : String → Outcome Stop Target
  pub path_of : String → String
  pub query_of : String → String
  pub epoch : String → Option ℕ
  pub expired : ℕ → Bool
  pub resolve : String → String → Outcome Trouble (Option Response)
  pub lookup : ℕ → String → Outcome Trouble Evidence
  pub now : ℕ → ℕ
  pub provider_calls : ℕ

-- the result, with the constant entries left out
pub record Assessment : Type 0 where
  pub check_id : Option String
  pub verdict : String
  pub processing_outcome : String
  pub coverage : String
  pub reason_codes : List String
  pub transport_warnings : List String
  pub threat_types : List String
  pub lookup_count : ℕ
  pub provider_call_count : ℕ
  pub observed_hop_count : ℕ
  pub lookup_observed_at : Option String
  pub lookup_valid_until : Option String

abbrev pub base_result : Assessment
base_result = record {
  check_id = none;
  verdict = "unknown";
  processing_outcome = "invalid_input";
  coverage = "not_assessed";
  reason_codes = "INVALID_REQUEST" ∷ [];
  transport_warnings = [];
  threat_types = [];
  lookup_count = 0;
  provider_call_count = 0;
  observed_hop_count = 0;
  lookup_observed_at = none;
  lookup_valid_until = none;
}

-- `sorted(set(l))`
abbrev insert_text : String → List String → List String
insert_text s [] = s ∷ []
insert_text s (t ∷ ts) =
    if str_eq s t then t ∷ ts else if text_before s t then s ∷ (t ∷ ts) else t ∷ insert_text s ts

abbrev pub sorted_set : List String → List String
sorted_set [] = []
sorted_set (s ∷ ss) = insert_text s (sorted_set ss)

-- `list(dict.fromkeys(l))`, where `seen` are the texts before
abbrev pub first_of_each : List String → List String → List String
first_of_each seen [] = []
first_of_each seen (s ∷ ss) =
    let rest = first_of_each (s ∷ seen) ss in if mem_key s seen then rest else s ∷ rest

-- how a part of the `try` block ends: it goes on with the result so far, returns it, or is
-- interrupted
pub data Progress : Type 0 where
  going : Assessment → Progress
  returned : Assessment → Progress
  interrupted : Trouble → Assessment → Progress

abbrev pub spent : Bool → Outcome Trouble Unit
spent b = raise_if b (unavailable "TIME_BUDGET_EXCEEDED")

-- an earlier observation takes the place of a later one
unfoldable pub earliest :
    (String → Option ℕ) → String → Option String → Outcome Trouble (Option String)
earliest epoch observed none = ok (some observed)
earliest epoch observed (some old) = do
  mine ← require (epoch observed) other
  theirs ← require (epoch old) other
  ok (if ltb mine theirs then some observed else some old)

unfoldable pub matched : Evidence → Assessment → Assessment
matched e a = record a {
  lookup_observed_at = some e.observed_at;
  lookup_valid_until = e.valid_until;
  verdict = "high_risk";
  threat_types = sorted_set (a.threat_types ++ e.threat_types);
  reason_codes = "KNOWN_THREAT_MATCH" ∷ [];
}

abbrev pub if_current : Evidence → Assessment → Outcome Trouble Bool → Progress
if_current e a (ok true) = returned (matched e a)
if_current e a (ok false) = interrupted (unavailable "PROVIDER_RESPONSE_INVALID") a
if_current e a (err t) = interrupted t a

module _ (w : World) where
  -- the threats of an observation
  abbrev pub judged : ℕ → Evidence → Assessment → Progress
  judged n e a =
      if is_empty e.threat_types
      then going a
      else if_current e a (is_current w.epoch e.observed_at e.valid_until (w.now n))

  abbrev pub noted : ℕ → Evidence → Assessment → Outcome Trouble (Option String) → Progress
  noted n e a (ok observed) = judged n e (record a { lookup_observed_at = observed })
  noted n e a (err t) = interrupted t a

  abbrev pub looked_up : ℕ → Assessment → Outcome Trouble Evidence → Progress
  looked_up n a (ok e) = noted n e a (earliest w.epoch e.observed_at a.lookup_observed_at)
  looked_up n a (err t) = interrupted t a

  abbrev pub allowed : ℕ → String → Assessment → Outcome Trouble Unit → Progress
  allowed n url a (err t) = interrupted t a
  allowed n url a (ok u) =
      looked_up n (record a { lookup_count = a.lookup_count + 1 })
        (w.lookup n url >>= evidence w.epoch)

  -- one turn of `for url in urls`
  unfoldable pub look : ℕ → String → Assessment → Progress
  unfolding evidence is_current earliest matched
  look n url a = allowed n url a (spent (w.expired (suc n)))

  unfoldable pub look_all : ℕ → List String → Assessment → Progress
  unfolding look
  look_all n [] a = going a
  look_all n (url ∷ rest) a = elim (look n url a) [
    | going b ↦ look_all (suc n) rest b
    | returned b ↦ returned b
    | interrupted t b ↦ interrupted t b
  ]

-- the result where no lookup has matched
unfoldable pub cleared : Bool → Bool → Assessment → Assessment
cleared complete whole a =
    if complete && whole
    then record a {
      verdict = "no_known_threat_detected";
      processing_outcome = "complete";
      coverage = "supported_checks_complete";
      reason_codes = "NO_LIST_MATCH" ∷ "BROWSER_NAVIGATION_NOT_EVALUATED" ∷ [];
    }
    else if not whole
    then record a { reason_codes = "ORIGIN_ONLY_NOT_FULL_LINK" ∷ [] }
    else a

abbrev pub concluded : Bool → Bool → Progress → Progress
concluded complete whole (going a) = returned (cleared complete whole a)
concluded complete whole (returned a) = returned a
concluded complete whole (interrupted t a) = interrupted t a

-- `except` and `finally`
abbrev pub recover : ℕ → Progress → Assessment
recover calls (going a) = record a { provider_call_count = calls }
recover calls (returned a) = record a { provider_call_count = calls }
recover calls (interrupted (unavailable reason) a) = record a {
  reason_codes = reason ∷ [];
  provider_call_count = calls;
}
recover calls (interrupted other a) = record a {
  reason_codes = "INTERNAL_ERROR" ∷ [];
  provider_call_count = calls;
}

abbrev pub nothing_observed : String → String
nothing_observed status =
    if str_eq status "blocked" || str_eq status "invalid_input" then status else "unavailable"

abbrev pub started : Asked → Assessment
started asked = record base_result {
  check_id = some asked.check_id;
  processing_outcome = "unavailable";
  reason_codes = "RESOLVER_UNAVAILABLE" ∷ [];
}

abbrev pub resolved : Observation → Assessment → Assessment
resolved o a = record a {
  observed_hop_count = length o.hops;
  transport_warnings = sorted_set o.warnings;
}

abbrev pub limited : Assessment → Assessment
limited a = record a {
  processing_outcome = "partial";
  coverage = "limited";
  reason_codes = "HTTP_CHAIN_INCOMPLETE" ∷ [];
}

module _ (w : World) where
  -- the lookups of the observed URLs, if there are any
  abbrev pub eligible : Asked → Observation → Assessment → List String → Progress
  eligible asked o a [] = returned (record a {
    processing_outcome = nothing_observed o.resolution_status;
    reason_codes = "NO_ELIGIBLE_OBSERVATION" ∷ [];
  })
  eligible asked o a (url ∷ rest) =
      concluded o.http_chain_complete asked.whole (look_all w 0 (url ∷ rest) (limited a))

  abbrev pub observed : Asked → Assessment → Outcome Trouble Observation → Progress
  observed asked a (err t) = interrupted t a
  observed asked a (ok o) = eligible asked o (resolved o a) (first_of_each [] (urls o.hops))

  -- the `try` block, from the first look at the budget on
  unfoldable pub attempted : Asked → Progress
  unfolding look_all cleared validate_resolution
  attempted asked = observed asked (started asked) (do
    spent (w.expired 0)
    answer ← w.resolve asked.check_id asked.target.url
    validate_resolution w.parse_target answer asked.check_id asked.target.url)

  abbrev pub accepted : Outcome Refusal Asked → Assessment
  accepted (err (stopped s)) = record base_result {
    processing_outcome = s.status;
    reason_codes = s.reason ∷ [];
  }
  accepted (err invalid_request) = base_result
  accepted (ok asked) = recover w.provider_calls (attempted asked)

  unfoldable pub assess : Value → Assessment
  unfolding attempted validate_request
  assess event = accepted (validate_request w.parse_target w.path_of w.query_of event)

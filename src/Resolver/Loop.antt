-- ===== src/Resolver/Loop.antt =====
-- `resolve`: one turn of its loop for each URL that is observed, and what each way out leaves in the
-- result. `expired n` tells whether the deadline has passed at the start of turn n. The transport
-- reports a failure as a stop, as the resolver's own transport does.
use amt_trust_check_radar_la.Base.{
  ℕ, zero, suc, ◌+◌, String, Bool, true, false, ◌&&◌, ◌||◌, not, Option, none, some, List, [], ◌∷◌,
  ◌++◌, ltb, leb, ◌==◌, any, length, str_eq, if◌then◌else◌, Outcome, ok, err, ◌>>=◌, ◌>>◌, raise_if,
  require,
}
use amt_trust_check_radar_la.Python.{codes}

abbrev pub max_redirects : ℕ
max_redirects = 5

abbrev pub max_url_bytes : ℕ
max_url_bytes = 2048

-- `ResolutionStop`
pub record Stop : Type 0 where
  pub reason : String
  pub status : String

abbrev partial : String → Stop
partial reason = record { reason = reason; status = "partial" }

abbrev blocked : String → Stop
blocked reason = record { reason = reason; status = "blocked" }

pub record Target : Type 0 where
  pub url : String
  pub scheme : String
  pub host : String

pub record Address : Type 0 where
  pub number : String
  pub version : ℕ

pub record Hop : Type 0 where
  pub url : String
  pub http_status : ℕ

-- the code around `resolve`; the UTF-8 length of a text is `utf8_length`, and `join_location` is `none`
-- where `urljoin` raises a ValueError
pub record Outside : Type 0 where
  pub expired : ℕ → Bool
  pub parse_target : String → Outcome Stop Target
  pub public_address : String → Outcome Stop Address
  pub join_location : String → String → Option String
  pub addresses : String → Outcome Stop (List String)
  pub fetch : Target → String → Outcome Stop (ℕ × Option String)
  pub utf8_length : String → ℕ

-- the result, with the fixed entries left out
pub record Observation : Type 0 where
  pub resolution_status : String
  pub hops : List Hop
  pub last_observed_url : Option String
  pub http_chain_complete : Bool
  pub warnings : List String
  pub reason_codes : List String
  pub request_count : ℕ

-- the local variables of the loop
pub record Run : Type 0 where
  pub visited : List String
  pub current : String
  pub previous_scheme : Option String
  pub result : Observation

abbrev pub is_member : String → List String → Bool
is_member s l = any (str_eq s) l

-- `if s not in l: l.append(s)`, where the condition holds
abbrev pub add_warning : Bool → String → List String → List String
add_warning c s l = if c && not (is_member s l) then l ++ (s ∷ []) else l

abbrev pub was_https : Option String → Bool
was_https none = false
was_https (some s) = str_eq s "https"

-- the deadline, the target of the current URL, and that it was not seen before
unfoldable pub enter : Outside → ℕ → Run → Outcome Stop Target
enter o turn r = do
  raise_if (o.expired turn) (partial "TIME_BUDGET_EXCEEDED")
  target ← o.parse_target r.current
  raise_if (is_member target.url r.visited) (partial "REDIRECT_LOOP")
  ok target

unfoldable pub visit : Target → Run → Run
visit target r =
    let insecure = str_eq target.scheme "http" in
    let first = add_warning insecure "UNENCRYPTED_CONNECTION" r.result.warnings in
    let second =
      add_warning (was_https r.previous_scheme && insecure) "HTTPS_TO_HTTP_REDIRECT" first in
    record r { visited = target.url ∷ r.visited; result = record (r.result) { warnings = second } }

-- Every answer must be public, also those that are not used.
abbrev pub validated : Outside → List String → Outcome Stop (List Address)
validated o [] = ok []
validated o (a ∷ answers) = do
  first ← o.public_address a
  rest ← validated o answers
  ok (first ∷ rest)

abbrev pub first_ipv4 : List Address → Option String
first_ipv4 [] = none
first_ipv4 (a ∷ rest) =
    let later = first_ipv4 rest in if a.version == 4 then some a.number else later

-- the one address to connect to
unfoldable pub connect : Outside → Target → Outcome Stop String
connect o target = do
  answers ← o.addresses target.host
  raise_if (length answers == 0 || ltb 32 (length answers)) (partial "DNS_ANSWER_UNAVAILABLE")
  checked ← validated o answers
  require (first_ipv4 checked) (partial "IPV6_ONLY_UNSUPPORTED")

abbrev pub counted : Run → Run
counted r = record r { result = record (r.result) { request_count = r.result.request_count + 1 } }

unfoldable pub observe : Target → ℕ → Run → Run
observe target status r = record r {
  result = record (r.result) {
    last_observed_url = some target.url;
    hops = r.result.hops ++ (record { url = target.url; http_status = status } ∷ []);
  };
}

abbrev pub is_redirect : ℕ → Bool
is_redirect s = (s == 301) || (s == 302) || (s == 303) || (s == 307) || (s == 308)

abbrev pub is_success : ℕ → Bool
is_success s = leb 200 s && ltb s 300

abbrev control : ℕ → Bool
control c = leb c 32 || (c == 127) || (c == 92)

-- a location that may be followed; a missing one and an empty one are the same
unfoldable pub location_to_follow : Outside → Option String → List Hop → Outcome Stop String
location_to_follow o location hops = do
  l ← require location (partial "MISSING_REDIRECT_LOCATION")
  raise_if (str_eq l "") (partial "MISSING_REDIRECT_LOCATION")
  raise_if (ltb max_redirects (length hops)) (partial "REDIRECT_LIMIT_EXCEEDED")
  raise_if (any control (codes l)) (blocked "INVALID_REDIRECT_LOCATION")
  raise_if (ltb max_url_bytes (o.utf8_length l)) (blocked "INVALID_REDIRECT_LOCATION")
  ok l

-- how a turn ends: the loop goes on, the result is returned, or an exception is raised that is no
-- ResolutionStop, which `resolve` does not catch
pub data Turn : Type 0 where
  next : Run → Turn
  return : Observation → Turn
  raised : Turn

-- `except ResolutionStop`
unfoldable pub stopped : Stop → Run → Observation
stopped s r = record (r.result) { resolution_status = s.status; reason_codes = s.reason ∷ [] }

unfoldable pub completed : Run → Observation
completed r = record (r.result) {
  resolution_status = "http_chain_complete";
  http_chain_complete = true;
  reason_codes = "HTTP_TERMINAL_OBSERVED" ∷ "BROWSER_NAVIGATION_NOT_EVALUATED" ∷ [];
}

abbrev pub followed : Target → Run → Option String → Turn
followed target r none = raised
followed target r (some url) =
    next (record r { current = url; previous_scheme = some target.scheme })

abbrev pub redirected : Outside → Target → Run → Outcome Stop String → Turn
redirected o target r (err s) = return (stopped s r)
redirected o target r (ok l) = followed target r (o.join_location target.url l)

abbrev pub answered : Outside → Target → Run → Outcome Stop (ℕ × Option String) → Turn
answered o target r (err s) = return (stopped s r)
answered o target r (ok (status, location)) =
    let seen = observe target status r in
    if is_redirect status
    then redirected o target seen (location_to_follow o location seen.result.hops)
    else if is_success status
    then return (completed seen)
    else return (stopped (partial "HTTP_RESPONSE_UNSUPPORTED") seen)

abbrev pub connected : Outside → Target → Run → Outcome Stop String → Turn
connected o target r (err s) = return (stopped s r)
connected o target r (ok address) = answered o target (counted r) (o.fetch target address)

abbrev pub entered : Outside → Run → Outcome Stop Target → Turn
entered o r (err s) = return (stopped s r)
entered o r (ok target) = connected o target (visit target r) (connect o target)

-- one turn of `while True`
unfoldable pub turn : Outside → ℕ → Run → Turn
turn o n r = entered o r (enter o n r)

-- why the loop returns no result; the first is no outcome of the code
pub data Failure : Type 0 where
  out_of_fuel value_error : Failure

-- the loop, on fuel
unfoldable pub loop : Outside → ℕ → ℕ → Run → Outcome Failure Observation
loop o zero n r = err out_of_fuel
loop o (suc fuel) n r = elim (turn o n r) [
  | next s ↦ loop o fuel (suc n) s
  | return result ↦ ok result
  | raised ↦ err value_error
]

abbrev pub start : String → Run
start url = record {
  visited = [];
  current = url;
  previous_scheme = none;
  result = record {
    resolution_status = "partial";
    hops = [];
    last_observed_url = none;
    http_chain_complete = false;
    warnings = [];
    reason_codes = [];
    request_count = 0;
  };
}

abbrev pub fuel : ℕ
fuel = 6

unfoldable pub resolve : Outside → String → Outcome Failure Observation
resolve o url = loop o fuel 0 (start url)

-- ===== src/Assessment/Request.antt =====
-- `validate_request` and `validate_resolution`: what an assessment accepts from its caller and from the
-- resolver. A response of other keys or types than those required is `none`.
use amt_trust_check_radar_la.Base.{
  ℕ, String, Bool, true, false, ◌&&◌, ◌||◌, not, Option, none, some, List, [], ◌∷◌, leb, ◌==◌, all,
  any, length, str_eq, if◌then◌else◌, Outcome, ok, err, ◌>>=◌, ◌>>◌, raise_if, require,
}
use amt_trust_check_radar_la.Python.{
  Value, int, text, Dict, dict_of, pos, lookup, text_of, has_key, is_text, same_keys, matches,
  name_char, codes, mem_key,
}
use amt_trust_check_radar_la.Resolver.Loop.{Stop, Target, Hop, Observation, is_redirect, is_success}
use amt_trust_check_radar_la.Assessment.Evidence.{Trouble, unavailable, distinct_texts}

-- why a request is refused: the target's stop, or the request itself
pub data Refusal : Type 0 where
  stopped : Stop → Refusal
  invalid_request : Refusal

abbrev is_int : ℕ → ℕ → Value → Bool
is_int lo hi (int (pos n)) = leb lo n && leb n hi
is_int lo hi _ = false

abbrev is_named : Value → Bool
is_named (text s) = matches "" name_char 1 64 s
is_named _ = false

abbrev is_scope : Value → Bool
is_scope v = is_text "full_url" v || is_text "origin_only" v

abbrev pub has_fragment : String → Bool
has_fragment s = any (λ c. c == b'#') (codes s)

abbrev is_url : Value → Bool
is_url (text s) = not (has_fragment s)
is_url _ = false

unfoldable pub is_request : Dict → Bool
unfolding same_keys matches
is_request d =
    (same_keys d ("schemaVersion" ∷ "checkId" ∷ "url" ∷ "scope" ∷ [])
      || same_keys d ("schemaVersion" ∷ "checkId" ∷ "url" ∷ "scope" ∷ "executionBudgetMs" ∷ []))
    && (not (has_key "executionBudgetMs" d) || is_int 1000 18000 (lookup "executionBudgetMs" d))
    && is_int 1 1 (lookup "schemaVersion" d)
    && is_named (lookup "checkId" d)
    && is_scope (lookup "scope" d)
    && is_url (lookup "url" d)

-- a request that passed, with what is read from it later
pub record Asked : Type 0 where
  pub check_id : String
  pub whole : Bool
  pub target : Target

abbrev target_for : Outcome Stop Target → Outcome Refusal Target
target_for (ok t) = ok t
target_for (err s) = err (stopped s)

-- The parts of a URL are those of `urlsplit`.
module _ (parse_target : String → Outcome Stop Target) (path_of query_of : String → String) where
  abbrev is_origin : String → Bool
  is_origin url =
      str_eq (path_of url) "/" && str_eq (query_of url) "" && not (any (λ c. c == b'?') (codes url))

  unfoldable pub validate_request : Value → Outcome Refusal Asked
  unfolding is_request
  validate_request value = do
    event ← require (dict_of value) invalid_request
    raise_if (not (is_request event)) invalid_request
    url ← require (text_of (lookup "url" event)) invalid_request
    check_id ← require (text_of (lookup "checkId" event)) invalid_request
    target ← target_for (parse_target url)
    raise_if (is_text "origin_only" (lookup "scope" event) && not (is_origin target.url))
        invalid_request
    ok (record {
      check_id = check_id;
      whole = is_text "full_url" (lookup "scope" event);
      target = target;
    })

-- the resolver's response: the id of its check, its scope, and what `resolve` returned
pub record Response : Type 0 where
  pub check_id : String
  pub scope : String
  pub observation : Observation

abbrev pub is_status : String → Bool
is_status s = mem_key s ("http_chain_complete" ∷ "partial" ∷ "blocked" ∷ "invalid_input" ∷ [])

abbrev pub is_warning : String → Bool
is_warning s = mem_key s ("UNENCRYPTED_CONNECTION" ∷ "HTTPS_TO_HTTP_REDIRECT" ∷ [])

-- `[A-Z_]`
abbrev pub reason_char : ℕ → Bool
reason_char c = (leb b'A' c && leb c b'Z') || (c == b'_')

unfoldable pub is_reason : String → Bool
unfolding matches
is_reason s = matches "" reason_char 1 80 s

unfoldable pub is_shaped : Response → String → Bool
unfolding is_reason
is_shaped r check_id =
    str_eq r.check_id check_id
    && str_eq r.scope "HTTP_REDIRECTS_ONLY"
    && is_status r.observation.resolution_status
    && leb r.observation.request_count 6
    && leb (length r.observation.hops) 6
    && leb (length r.observation.warnings) 2
    && all is_warning r.observation.warnings
    && leb 1 (length r.observation.reason_codes)
    && leb (length r.observation.reason_codes) 8
    && all is_reason r.observation.reason_codes

abbrev pub is_canonical : Outcome Stop Target → String → Bool
is_canonical (ok t) url = str_eq t.url url && not (has_fragment url)
is_canonical (err s) url = false

abbrev pub last_url : List Hop → Option String
last_url [] = none
last_url (h ∷ []) = some h.url
last_url (h ∷ (g ∷ hops)) = last_url (g ∷ hops)

abbrev pub ends_well : List Hop → Bool
ends_well [] = false
ends_well (h ∷ []) = is_success h.http_status
ends_well (h ∷ (g ∷ hops)) = ends_well (g ∷ hops)

abbrev pub same_url : Option String → Option String → Bool
same_url none none = true
same_url (some s) (some t) = str_eq s t
same_url _ _ = false

-- each hop but the last is a redirect
abbrev pub goes_on : ℕ → List Hop → Bool
goes_on status [] = true
goes_on status (h ∷ hops) = is_redirect status

abbrev pub starts_at : String → List Hop → Bool
starts_at initial [] = true
starts_at initial (h ∷ hops) = str_eq h.url initial

abbrev pub urls : List Hop → List String
urls [] = []
urls (h ∷ hops) = h.url ∷ urls hops

unfoldable pub is_consistent : Observation → Bool
is_consistent o =
    let complete = str_eq o.resolution_status "http_chain_complete" in
    (if complete then o.http_chain_complete else not o.http_chain_complete)
    && same_url o.last_observed_url (last_url o.hops)
    && (not complete || (o.request_count == length o.hops && ends_well o.hops))

module _ (parse_target : String → Outcome Stop Target) where
  unfoldable pub valid_hop : Hop → List Hop → Bool
  valid_hop h later =
      (leb 100 h.http_status && leb h.http_status 599)
      && is_canonical (parse_target h.url) h.url
      && goes_on h.http_status later

  unfoldable pub valid_hops : List Hop → Bool
  unfolding valid_hop
  valid_hops [] = true
  valid_hops (h ∷ hops) = valid_hop h hops && valid_hops hops

  unfoldable pub is_valid_resolution : Response → String → String → Bool
  unfolding is_shaped valid_hops is_consistent
  is_valid_resolution r check_id initial =
      is_shaped r check_id
      && leb (length r.observation.hops) r.observation.request_count
      && starts_at initial r.observation.hops
      && valid_hops r.observation.hops
      && distinct_texts (urls r.observation.hops)
      && is_consistent r.observation

  unfoldable pub validate_resolution :
      Option Response → String → String → Outcome Trouble Observation
  unfolding is_valid_resolution
  validate_resolution value check_id initial = do
    r ← require value (unavailable "RESOLVER_RESPONSE_INVALID")
    raise_if (not (is_valid_resolution r check_id initial))
        (unavailable "RESOLVER_RESPONSE_INVALID")
    ok r.observation

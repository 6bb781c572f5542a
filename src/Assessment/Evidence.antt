-- ===== src/Assessment/Evidence.antt =====
-- shared_lookup_freshness/__init__.py: the evidence of a lookup, and how long it is valid. The time of
-- a stamp is in nanoseconds, which its nine decimals can tell apart; `epoch` is `none` where it raises.
-- Evidence of other keys or types makes its check raise, as the lookup itself may.
use amt_trust_check_radar_la.Base.{
  ℕ, String, Bool, true, false, ◌&&◌, ◌||◌, not, Option, none, some, List, [], ◌∷◌, ltb, leb, all,
  any, length, str_eq, if◌then◌else◌, Outcome, ok, ◌>>=◌, ◌>>◌, raise_if, require,
}
use amt_trust_check_radar_la.Python.{mem_key}

pub record Evidence : Type 0 where
  pub threat_types : List String
  pub observed_at : String
  pub valid_until : Option String

-- an exception that is `Unavailable`, with its reason, or of another class
pub data Trouble : Type 0 where
  unavailable : String → Trouble
  other : Trouble

abbrev pub is_empty : {A : Type 0} → List A → Bool
is_empty [] = true
is_empty (a ∷ l) = false

abbrev pub distinct_texts : List String → Bool
distinct_texts [] = true
distinct_texts (s ∷ ss) = not (any (str_eq s) ss) && distinct_texts ss

abbrev known_threat : String → Bool
known_threat s = mem_key s ("MALWARE" ∷ "SOCIAL_ENGINEERING" ∷ "UNWANTED_SOFTWARE" ∷ [])

abbrev is_some : {A : Type 0} → Option A → Bool
is_some none = false
is_some (some a) = true

module _ (epoch : String → Option ℕ) where
  -- `validate`
  unfoldable pub validate_times : String → Option String → Bool → Outcome Trouble Unit
  validate_times observed valid_until matched = do
    start ← require (epoch observed) other
    raise_if (not matched && is_some valid_until) other
    if matched
        then (do
          until ← require valid_until other
          finish ← require (epoch until) other
          raise_if (leb finish start) other)
        else ok tt

  -- `current`
  unfoldable pub is_current : String → Option String → ℕ → Outcome Trouble Bool
  unfolding validate_times
  is_current observed valid_until clock = do
    validate_times observed valid_until true
    start ← require (epoch observed) other
    until ← require valid_until other
    finish ← require (epoch until) other
    ok (leb start clock && ltb clock finish)

  -- `evidence`
  unfoldable pub evidence : Evidence → Outcome Trouble Evidence
  unfolding validate_times
  evidence e = do
    raise_if
        (ltb 3 (length e.threat_types)
          || not (all known_threat e.threat_types)
          || not (distinct_texts e.threat_types))
        other
    validate_times e.observed_at e.valid_until (not (is_empty e.threat_types))
    ok e

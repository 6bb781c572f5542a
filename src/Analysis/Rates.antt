-- ===== src/Analysis/Rates.antt =====
-- `enforce_rate_limit` and `release_request`: the counter of a window of requests, and the giving up of a
-- request that has no result.
use native.Mathlib.Nat.{mod-add-div, mod-eq_of_lt, add-mul-mod_self_left}
use amt_trust_check_radar_la.Base.{
  ap, ◌<◌, ◌*◌, ◌/◌, ℕ, ◌+◌, ◌-◌, ◌%◌, ◌≤◌, String, Bool, true, false, not, Option, none, some,
  List, [], ◌∷◌, ◌≡◌, refl, ◌∙◌, all, subst, sym, str_eq, if◌then◌else◌, ◌&◌, arith,
}
use amt_trust_check_radar_la.Python.{
  pos, decimal, get, text, Dict, put, get-put, lookup, natural, dict_of, pad, has_key-natural,
  value_eq,
}
use amt_trust_check_radar_la.Dynamo.{
  Key, Condition, equals, both, either, exists, not_exists, below, always, Change, assign, add,
  discard, Action, update, delete, condition_of, holds, written, changes, change, added, key_of,
  key_dict, change-add, changes-step,
}
use amt_trust_check_radar_la.Analysis.Leases.{number}

pub record RateLimit : Type 0 where
  pub table : String
  pub window_seconds : ℕ
  pub max_requests : ℕ

abbrev window_start : RateLimit → ℕ → ℕ
window_start s now = now - now % s.window_seconds

abbrev pub rate_key : RateLimit → String → ℕ → Key
rate_key s key now = record { pk = "ANALYSIS#RATE#" & key; sk = pad 1 (window_start s now) }

abbrev window_changes : RateLimit → ℕ → String → List Change
window_changes s now iso_now =
    assign "expiresAt" (number (window_start s now + s.window_seconds))
    ∷ assign "ttl" (number (window_start s now + s.window_seconds))
    ∷ assign "updatedAt" (text iso_now)
    ∷ []

-- the write of `enforce_rate_limit`
unfoldable pub rate_action : RateLimit → String → ℕ → String → Action
rate_action s key now iso_now =
    update s.table (rate_key s key now) (add "requestCount" (pos 1) ∷ window_changes s now iso_now)
      (either (not_exists "requestCount") (below "requestCount" s.max_requests))

abbrev request_key : String → String → Key
request_key key request_id = record { pk = "ANALYSIS#REQUEST#" & key; sk = request_id }

abbrev processing_with : String → Condition
processing_with token =
    both (equals "status" (text "PROCESSING")) (equals "leaseToken" (text token))

-- An authorized history keeps the record for another attempt.
unfoldable pub retry_action : String → String → String → String → String → Action
retry_action table key request_id token iso_now =
    update table (request_key key request_id)
      (assign "status" (text "RETRYABLE")
        ∷ assign "updatedAt" (text iso_now)
        ∷ discard "leaseToken"
        ∷ discard "leaseExpiresAt"
        ∷ [])
      (both (equals "status" (text "PROCESSING"))
        (both (equals "leaseToken" (text token)) (exists "historyAuthorization")))

unfoldable pub drop_action : String → String → String → Option String → Action
drop_action table key request_id none = delete table (request_key key request_id) always
drop_action table key request_id (some token) =
    delete table (request_key key request_id) (processing_with token)

abbrev authorized : Option Dict → Bool
authorized none = false
authorized (some row) = elim (dict_of (lookup "historyAuthorization" row)) [
  | none ↦ false
  | some d ↦ true
]

-- The writes that `release_request` sends: `accepted` tells of the first whether its condition held.
unfoldable pub release_request :
    String → String → String → Option String → String → Option Dict → Bool → List Action
release_request table key request_id none iso_now existing accepted =
    drop_action table key request_id none ∷ []
release_request table key request_id (some token) iso_now existing accepted =
    if authorized existing
    then retry_action table key request_id token iso_now
      ∷ (if accepted then [] else drop_action table key request_id (some token) ∷ [])
    else drop_action table key request_id (some token) ∷ []

-- A worker that gives up with a token that no longer holds the record changes nothing.
pub release_request-refused :
    (table key request_id token other iso_now : String) (existing : Option Dict) (accepted : Bool)
    (row : Dict)
    → lookup "leaseToken" row ≡ text other
    → str_eq token other ≡ false
    → all
        (λ act. not (holds (condition_of act) (some row)))
        (release_request table key request_id (some token) iso_now existing accepted)
      ≡ true
unfolding release_request retry_action drop_action holds value_eq
release_request-refused table key request_id token other iso_now existing accepted row held differ =
    ground (arith, held)

some-inj : {a b : Dict} → some a ≡ some b → a ≡ b
some-inj e = cc

-- the row with the times of the window
abbrev windowed : RateLimit → ℕ → String → Dict → Dict
windowed s now iso_now d = put "updatedAt" (text iso_now) (
    put "ttl" (number (window_start s now + s.window_seconds))
      (put "expiresAt" (number (window_start s now + s.window_seconds)) d))

set-window :
    (s : RateLimit) (now : ℕ) (iso_now : String) (d : Dict)
    → changes (window_changes s now iso_now) d ≡ some (windowed s now iso_now d)
unfolding changes change
set-window s now iso_now d = refl

-- what a row counts, which is missing before the first request of its window
pub data Counts : Option Dict → ℕ → Type 0 where
  missing : Counts none 0
  uncounted : {row : Dict} → get "requestCount" row ≡ none → Counts (some row) 0
  counted :
      {row : Dict} {count : ℕ}
      → natural (lookup "requestCount" row) ≡ some count
      → Counts (some row) count

abbrev base : Key → Option Dict → Dict
base k none = key_dict k
base k (some row) = row

change-first :
    (d : Dict)
    → get "requestCount" d ≡ none
    → change (add "requestCount" (pos 1)) d ≡ some (put "requestCount" (decimal (pos 1)) d)
unfolding change added
change-first d h = rw (change, h) refl

counted-changes :
    (s : RateLimit) (now count : ℕ) (iso_now : String) (d after : Dict)
    → change (add "requestCount" (pos 1)) d
      ≡ some (put "requestCount" (decimal (pos (count + 1))) d)
    → changes (add "requestCount" (pos 1) ∷ window_changes s now iso_now) d ≡ some after
    → natural (lookup "requestCount" after) ≡ some (count + 1)
unfolding natural
counted-changes s now count iso_now d after first wrote =
    let more = changes-step (add "requestCount" (pos 1)) (window_changes s now iso_now) d _ first in
    subst (λ d. natural (lookup "requestCount" d) ≡ some (count + 1))
      (some-inj (sym (set-window s now iso_now _) ∙ sym more ∙ wrote)) (simp get-put)

count-written :
    (s : RateLimit) (key iso_now : String) (now count : ℕ) (row : Option Dict) (after : Dict)
    → Counts row count
    → written (rate_action s key now iso_now) row ≡ some after
    → natural (lookup "requestCount" after) ≡ some (count + 1)
unfolding rate_action
count-written s key iso_now now count none after missing wrote =
    counted-changes s now 0 iso_now _ after (change-first _ refl) wrote
count-written s key iso_now now count (some row) after (uncounted h) wrote =
    counted-changes s now 0 iso_now row after (change-first row h) wrote
count-written s key iso_now now count (some row) after (counted h) wrote =
    counted-changes s now count iso_now row after (change-add "requestCount" (pos 1) count row h)
      wrote

below-limit :
    (s : RateLimit) (key iso_now : String) (now count : ℕ) (row : Option Dict)
    → Counts row count
    → 1 ≤ s.max_requests
    → holds (condition_of (rate_action s key now iso_now)) row ≡ true
    → count + 1 ≤ s.max_requests
unfolding rate_action holds natural
below-limit s key iso_now now count none missing some_allowed allowed = some_allowed
below-limit s key iso_now now count (some row) (uncounted h) some_allowed allowed = some_allowed
below-limit s key iso_now now count (some row) (counted h) some_allowed allowed =
    let there = has_key-natural "requestCount" row count h in ground arith

-- Two times of one window count in one row.
window-same :
    (s : RateLimit) (now other : ℕ)
    → window_start s now ≤ other
    → other < window_start s now + s.window_seconds
    → window_start s other ≡ window_start s now
window-same s now other from until =
    let w = s.window_seconds in
    let r = other - window_start s now in
    let split = mod-add-div now w in
    let at : other ≡ r + w * (now / w) = omega arith in
    let small : r < w = omega arith in
    let rest : other % w ≡ r =
      ap (λ x. x % w) at ∙ add-mul-mod_self_left r w (now / w) ∙ mod-eq_of_lt small in
    omega arith

-- the effect of a request that is counted
pub record Limited (s : RateLimit) (key : String) (now count : ℕ) (act : Action) (after : Dict)
    : Type 0 where
  pub counted_once : natural (lookup "requestCount" after) ≡ some (count + 1)
  pub within : count + 1 ≤ s.max_requests
  pub one_row :
      (other : ℕ) (iso_other : String)
      → window_start s now ≤ other
      → other < window_start s now + s.window_seconds
      → key_of (rate_action s key other iso_other) ≡ key_of act

-- Where the limit admits a request at all, a request that is counted leaves the count of its window
-- within the limit, and one higher, also if it is the first of the window; every request in the window
-- is counted in the same row.
pub rate_action-within :
    (s : RateLimit) (key iso_now : String) (now count : ℕ) (row : Option Dict) (after : Dict)
    → 1 ≤ s.max_requests
    → Counts row count
    → holds (condition_of (rate_action s key now iso_now)) row ≡ true
    → written (rate_action s key now iso_now) row ≡ some after
    → Limited s key now count (rate_action s key now iso_now) after
unfolding rate_action
rate_action-within s key iso_now now count row after some_allowed counts allowed wrote = record {
  counted_once = count-written s key iso_now now count row after counts wrote;
  within = below-limit s key iso_now now count row counts some_allowed allowed;
  one_row = λ other iso_other from until.
      ap (λ x. record { pk = "ANALYSIS#RATE#" & key; sk = pad 1 x })
        (window-same s now other from until);
}

-- ===== src/Operations/Rejections.antt =====
-- The rejections of a batch, which hold the whole count of their window, and the rule by which a
-- later count replaces an earlier one.
use amt_trust_check_radar_la.Base.{
  ℕ, ◌+◌, ◌%◌, String, Bool, ◌&&◌, ◌||◌, not, Option, none, some, List, [], ◌∷◌, ltb, ◌==◌, str_eq,
  if◌then◌else◌, Outcome, ok, err, ◌>>=◌, ◌>>◌, raise_if, require,
}
use amt_trust_check_radar_la.Operations.Facts.{
  Service, Rejection, same_service, Fault, invalid_rejection, environment_mismatch,
  invalid_event_time, stale_rejection, rejection_context_conflict,
}
use amt_trust_check_radar_la.Operations.Checks.{Day, in_day, change_at}

-- the fields that `_same` compares: all but the count
abbrev pub same_window : Rejection → Rejection → Bool
same_window a b =
    (a.window_start == b.window_start)
    && same_service a.service b.service
    && str_eq a.reason_code b.reason_code

unfoldable pub replaces : Option Rejection → Rejection → Outcome Fault Rejection
replaces none new = err invalid_rejection
replaces (some old) new = do
  raise_if (not (same_window old new && str_eq old.environment new.environment))
      rejection_context_conflict
  raise_if (ltb new.rejected_count old.rejected_count) stale_rejection
  ok new

-- The snapshots are raw: `none` inside is one that its schema refuses.
unfoldable pub reconcile_rejection_snapshot :
    Option (Option Rejection) → Option Rejection → Outcome Fault Rejection
unfolding replaces
reconcile_rejection_snapshot previous none = err invalid_rejection
reconcile_rejection_snapshot none (some new) = ok new
reconcile_rejection_snapshot (some previous) (some new) = replaces previous new

-- `rejections[key] = count`, where an old count must be the same
unfoldable pub put_rejection : Rejection → List Rejection → Outcome Fault (List Rejection)
put_rejection r [] = ok (r ∷ [])
put_rejection r (q ∷ rejections) =
    if same_window q r
    then (do
      raise_if (not (q.rejected_count == r.rejected_count)) rejection_context_conflict
      ok (r ∷ rejections))
    else (do rest ← put_rejection r rejections; ok (q ∷ rest))

unfoldable pub take_rejection :
    String → ℕ → Option Rejection → List Rejection → Outcome Fault (List Rejection)
unfolding put_rejection
take_rejection environment as_of raw rejections = do
  r ← require raw invalid_rejection
  raise_if (not (str_eq r.environment environment)) environment_mismatch
  raise_if (not (r.window_start % 300 == 0) || ltb as_of (r.window_start + 300)) invalid_event_time
  put_rejection r rejections

unfoldable pub gather_rejections :
    String → ℕ → List (Option Rejection) → List Rejection → Outcome Fault (List Rejection)
unfolding take_rejection
gather_rejections environment as_of [] rejections = ok rejections
gather_rejections environment as_of (raw ∷ raws) rejections = do
  taken ← take_rejection environment as_of raw rejections
  gather_rejections environment as_of raws taken

-- `rejected[service][reason] += count`
unfoldable pub sum_rejections : Day → List Rejection → (Service → String → ℕ) → Service → String → ℕ
sum_rejections d [] rejected = rejected
sum_rejections d (r ∷ rejections) rejected = sum_rejections d rejections (
    if in_day d r.window_start
    then change_at same_service r.service
        (change_at str_eq r.reason_code (λ n. n + r.rejected_count)) rejected
    else rejected)

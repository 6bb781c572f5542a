-- ===== src/Operations/Gather.antt =====
-- The first loop of `aggregate_day`: every event is checked, exact replays are passed over, and the
-- phases of a check and of an attempt are brought together. `none` among the raw events is one that
-- its schema refuses. The order of `ids` is not observed.
use amt_trust_check_radar_la.Base.{
  ℕ, String, Bool, Option, none, some, List, [], ◌∷◌, ltb, not, str_eq, if◌then◌else◌, Outcome, ok,
  ◌>>=◌, ◌>>◌, raise_if, require,
}
use amt_trust_check_radar_la.Operations.Facts.{
  Event, Accepted, Terminal, Started, Finished, check_accepted, check_terminal, attempt_started,
  attempt_finished, head_of, same_accepted, same_terminal, same_started, same_finished, same_event,
  Fault, invalid_event, environment_mismatch, invalid_event_time, event_id_conflict, fact_conflict,
}

-- the entries of `checks` and of `attempts`
pub record Check : Type 0 where
  pub ref : String
  pub accepted : Option Accepted
  pub terminal : Option Terminal

pub record Tried : Type 0 where
  pub ref : String
  pub began : Option Started
  pub finished : Option Finished

pub record Batch : Type 0 where
  pub ids : List Event
  pub checks : List Check
  pub attempts : List Tried

abbrev pub empty_batch : Batch
empty_batch = record { ids = []; checks = []; attempts = [] }

-- `_put_unique` on one phase of a fact
unfoldable pub put_unique : {A : Type 0} → (A → A → Bool) → Option A → A → Outcome Fault (Option A)
put_unique same none value = ok (some value)
put_unique same (some old) value = do raise_if (not (same old value)) fact_conflict; ok (some value)

-- `d.setdefault(ref, {})`, and the write of the entry
unfoldable pub with_entry :
    {A : Type 0}
    → (A → String)
    → (String → A)
    → String
    → (A → Outcome Fault A)
    → List A
    → Outcome Fault (List A)
with_entry key new ref write [] = do entry ← write (new ref); ok (entry ∷ [])
with_entry key new ref write (a ∷ as') =
    if str_eq (key a) ref
    then (do entry ← write a; ok (entry ∷ as'))
    else (do rest ← with_entry key new ref write as'; ok (a ∷ rest))

abbrev pub new_check : String → Check
new_check ref = record { ref = ref; accepted = none; terminal = none }

abbrev pub new_tried : String → Tried
new_tried ref = record { ref = ref; began = none; finished = none }

abbrev pub put_accepted : Accepted → Check → Outcome Fault Check
put_accepted a c = do v ← put_unique same_accepted c.accepted a; ok (record c { accepted = v })

abbrev pub put_terminal : Terminal → Check → Outcome Fault Check
put_terminal t c = do v ← put_unique same_terminal c.terminal t; ok (record c { terminal = v })

abbrev pub put_started : Started → Tried → Outcome Fault Tried
put_started s t = do v ← put_unique same_started t.began s; ok (record t { began = v })

abbrev pub put_finished : Finished → Tried → Outcome Fault Tried
put_finished f t = do v ← put_unique same_finished t.finished f; ok (record t { finished = v })

abbrev on_check : String → (Check → Outcome Fault Check) → Batch → Outcome Fault Batch
on_check ref write b = do
  checks ← with_entry (λ c. c.ref) new_check ref write b.checks
  ok (record b { checks = checks })

abbrev on_attempt : String → (Tried → Outcome Fault Tried) → Batch → Outcome Fault Batch
on_attempt ref write b = do
  attempts ← with_entry (λ t. t.ref) new_tried ref write b.attempts
  ok (record b { attempts = attempts })

unfoldable pub store : Event → Batch → Outcome Fault Batch
unfolding put_unique with_entry
store (check_accepted a) b = on_check a.head.logical_check_ref (put_accepted a) b
store (check_terminal t) b = on_check t.head.logical_check_ref (put_terminal t) b
store (attempt_started s) b = on_attempt s.attempt.attempt_ref (put_started s) b
store (attempt_finished f) b = on_attempt f.attempt.attempt_ref (put_finished f) b

abbrev pub find_event : String → List Event → Option Event
find_event id [] = none
find_event id (e ∷ es) = if str_eq (head_of e).event_id id then some e else find_event id es

-- the event is new, or it repeats the one that has its id
unfoldable pub place : Option Event → Event → Batch → Outcome Fault Batch
unfolding store
place none e b = do stored ← store e b; ok (record stored { ids = e ∷ b.ids })
place (some old) e b = do raise_if (not (same_event old e)) event_id_conflict; ok b

-- one turn of the loop
unfoldable pub take_event : String → ℕ → Option Event → Batch → Outcome Fault Batch
unfolding place
take_event environment as_of raw b = do
  e ← require raw invalid_event
  raise_if (not (str_eq (head_of e).environment environment)) environment_mismatch
  raise_if (ltb as_of (head_of e).event_time) invalid_event_time
  place (find_event (head_of e).event_id b.ids) e b

unfoldable pub gather : String → ℕ → List (Option Event) → Batch → Outcome Fault Batch
unfolding take_event
gather environment as_of [] b = ok b
gather environment as_of (raw ∷ events) b = do
  taken ← take_event environment as_of raw b
  gather environment as_of events taken

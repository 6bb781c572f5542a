-- ===== src/Operations/Attempts.antt =====
-- The third loop of `aggregate_day`: the attempts that were started in the day, with their outcome
-- and what is known of their cost. `ordinals` keeps the attempt that has each ordinal of a check.
use amt_trust_check_radar_la.Base.{
  ℕ, ◌+◌, String, Bool, false, ◌&&◌, not, Option, none, some, List, [], ◌∷◌, ltb, ◌==◌, str_eq,
  if◌then◌else◌, Outcome, ok, ◌>>=◌, ◌>>◌, raise_if,
}
use amt_trust_check_radar_la.Operations.Facts.{
  ProviderFamily, AttemptKind, internal_component, provider_call, AttemptOutcome, succeeded, failed,
  denied, Accepted, Terminal, Started, Finished, same_service, same_family, same_context,
  same_attempt, Fault, attempt_context_conflict, invalid_event_time, attempt_ordinal_conflict,
}
use amt_trust_check_radar_la.Operations.Gather.{Check, Tried}
use amt_trust_check_radar_la.Operations.Checks.{Day, in_day, change_at}

pub record AttemptCount : Type 0 where
  pub started : ℕ
  pub awaiting_finish : ℕ
  pub succeeded_attempts : ℕ
  pub failed_attempts : ℕ
  pub denied_attempts : ℕ

pub record ProviderCount : Type 0 where
  pub attempts : AttemptCount
  pub cost_known : ℕ
  pub cost_unknown : ℕ
  pub known_cost : ℕ
  pub units_known : ℕ
  pub units_unknown : ℕ
  pub known_units : ℕ

pub record Ordinal : Type 0 where
  pub check_ref : String
  pub ordinal : ℕ
  pub attempt_ref : String

pub record AttemptTally : Type 0 where
  pub providers : ProviderFamily → ProviderCount
  pub internal : AttemptCount
  pub missing_start : ℕ
  pub missing_accepted : ℕ
  pub ordinals : List Ordinal

abbrev no_count : AttemptCount
no_count = record {
  started = 0;
  awaiting_finish = 0;
  succeeded_attempts = 0;
  failed_attempts = 0;
  denied_attempts = 0;
}

abbrev pub no_attempts : AttemptTally
no_attempts = record {
  providers = λ p. record {
    attempts = no_count;
    cost_known = 0;
    cost_unknown = 0;
    known_cost = 0;
    units_known = 0;
    units_unknown = 0;
    known_units = 0;
  };
  internal = no_count;
  missing_start = 0;
  missing_accepted = 0;
  ordinals = [];
}

abbrev by_outcome : AttemptOutcome → AttemptCount → AttemptCount
by_outcome succeeded c = record c { succeeded_attempts = c.succeeded_attempts + 1 }
by_outcome failed c = record c { failed_attempts = c.failed_attempts + 1 }
by_outcome denied c = record c { denied_attempts = c.denied_attempts + 1 }

unfoldable pub attempt_after : Option Finished → AttemptCount → AttemptCount
attempt_after none c = record c { started = c.started + 1; awaiting_finish = c.awaiting_finish + 1 }
attempt_after (some f) c = by_outcome f.attempt_outcome (record c { started = c.started + 1 })

abbrev cost_of : Option Finished → Option ℕ
cost_of none = none
cost_of (some f) = f.estimated_cost

abbrev units_of : Option Finished → Option ℕ
units_of none = none
units_of (some f) = f.provider_request_units

abbrev with_cost : Option ℕ → ProviderCount → ProviderCount
with_cost none c = record c { cost_unknown = c.cost_unknown + 1 }
with_cost (some n) c = record c { cost_known = c.cost_known + 1; known_cost = c.known_cost + n }

abbrev with_units : Option ℕ → ProviderCount → ProviderCount
with_units none c = record c { units_unknown = c.units_unknown + 1 }
with_units (some n) c = record c {
  units_known = c.units_known + 1;
  known_units = c.known_units + n;
}

unfoldable pub provider_after : Option Finished → ProviderCount → ProviderCount
unfolding attempt_after
provider_after f c =
    with_units (units_of f)
      (with_cost (cost_of f) (record c { attempts = attempt_after f c.attempts }))

unfoldable pub counted_attempt : AttemptKind → Option Finished → AttemptTally → AttemptTally
unfolding provider_after
counted_attempt internal_component f tally = record tally {
  internal = attempt_after f tally.internal;
}
counted_attempt (provider_call p) f tally = record tally {
  providers = change_at same_family p (provider_after f) tally.providers;
}

-- `checks.get(ref, {})`
abbrev pub accepted_of : String → List Check → Option Accepted
accepted_of ref [] = none
accepted_of ref (c ∷ checks) = if str_eq c.ref ref then c.accepted else accepted_of ref checks

abbrev pub terminal_of : String → List Check → Option Terminal
terminal_of ref [] = none
terminal_of ref (c ∷ checks) = if str_eq c.ref ref then c.terminal else terminal_of ref checks

-- a finish belongs to the attempt that it ends
unfoldable pub ends : Started → Option Finished → Outcome Fault Unit
ends began none = ok tt
ends began (some f) = do
  raise_if (not (same_context began.head f.head && same_attempt began.attempt f.attempt))
      attempt_context_conflict
  raise_if (ltb f.head.event_time began.head.event_time) invalid_event_time

abbrev ended_before : ℕ → Option Terminal → Bool
ended_before n none = false
ended_before n (some t) = ltb t.head.event_time n

-- the start lies within the life of its check
unfoldable pub within_check : Started → Accepted → Option Terminal → Outcome Fault Unit
within_check began a t = do
  raise_if
      (not (
        same_service a.head.service began.head.service
        && str_eq a.head.input_kind began.head.input_kind))
      attempt_context_conflict
  raise_if (ltb began.head.event_time a.head.event_time) invalid_event_time
  raise_if (ended_before began.head.event_time t) invalid_event_time

-- `ordinals[key] = attempt_ref`, refused where another attempt has the ordinal
unfoldable pub claim_ordinal : Ordinal → List Ordinal → Outcome Fault (List Ordinal)
claim_ordinal o [] = ok (o ∷ [])
claim_ordinal o (p ∷ ordinals) =
    if str_eq p.check_ref o.check_ref && (p.ordinal == o.ordinal)
    then (do
      raise_if (not (str_eq p.attempt_ref o.attempt_ref)) attempt_ordinal_conflict
      ok (o ∷ ordinals))
    else (do rest ← claim_ordinal o ordinals; ok (p ∷ rest))

abbrev pub take_within :
    Day
    → Tried
    → Started
    → Option Accepted
    → Option Terminal
    → AttemptTally
    → Outcome Fault AttemptTally
take_within d tried began none t tally =
    ok (record tally { missing_accepted = tally.missing_accepted + 1 })
take_within d tried began (some a) t tally = do
  within_check began a t
  ordinals ←
      claim_ordinal
        (record {
          check_ref = began.head.logical_check_ref;
          ordinal = began.attempt.attempt_ordinal;
          attempt_ref = tried.ref;
        })
        tally.ordinals
  let claimed : AttemptTally = record tally { ordinals = ordinals }
  ok (
      if in_day d began.head.event_time
      then counted_attempt began.attempt.attempt_kind tried.finished claimed
      else claimed)

abbrev pub take_started :
    Day → List Check → Tried → Option Started → AttemptTally → Outcome Fault AttemptTally
take_started d checks tried none tally =
    ok (record tally { missing_start = tally.missing_start + 1 })
take_started d checks tried (some began) tally = do
  ends began tried.finished
  take_within d tried began (accepted_of began.head.logical_check_ref checks)
      (terminal_of began.head.logical_check_ref checks) tally

unfoldable pub take_attempt : Day → List Check → Tried → AttemptTally → Outcome Fault AttemptTally
unfolding ends within_check claim_ordinal counted_attempt
take_attempt d checks tried tally = take_started d checks tried tried.began tally

unfoldable pub count_attempts :
    Day → List Check → List Tried → AttemptTally → Outcome Fault AttemptTally
unfolding take_attempt
count_attempts d checks [] tally = ok tally
count_attempts d checks (t ∷ attempts) tally = do
  taken ← take_attempt d checks t tally
  count_attempts d checks attempts taken

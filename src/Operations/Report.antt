-- ===== src/Operations/Report.antt =====
-- `aggregate_day` and `aggregate_selected_captures`: the guards, the loops and the report. The bounds
-- of a local day come from the time zone's table, and so are a parameter.
use amt_trust_check_radar_la.Base.{
  ℕ, ◌+◌, String, Bool, ◌&&◌, not, Option, none, some, List, [], ◌∷◌, ◌++◌, ltb, leb, ◌==◌, str_eq,
  length, if◌then◌else◌, Outcome, ok, ◌>>=◌, ◌>>◌, raise_if, require,
}
use amt_trust_check_radar_la.Python.{Value, Dict, lookup, is_text}
use amt_trust_check_radar_la.Operations.Facts.{
  Service, ProcessingOutcome, AccessClass, ProviderFamily, Event, Rejection, same_service,
  same_class, Fault, invalid_argument, batch_bound_exceeded, invalid_event, environment_mismatch,
  invalid_event_time, correction_window_closed, linkage_expired,
}
use amt_trust_check_radar_la.Operations.Scope.{selected_dev, is_environment, validate_scope}
use amt_trust_check_radar_la.Operations.Gather.{empty_batch, gather, put_unique}
use amt_trust_check_radar_la.Operations.Checks.{
  Day, correction_seconds, ServiceCount, AccessCount, CheckTally, no_checks, count_checks,
  over_services,
}
use amt_trust_check_radar_la.Operations.Attempts.{
  AttemptCount, ProviderCount, AttemptTally, no_attempts, count_attempts,
}
use amt_trust_check_radar_la.Operations.Rejections.{gather_rejections, sum_rejections}

abbrev pub max_batch_facts : ℕ
max_batch_facts = 10000

-- `fraction` keeps the two numbers of the quotient
pub record Rate : Type 0 where
  pub numerator : ℕ
  pub denominator : ℕ
  pub fraction : Option (ℕ × ℕ)

-- the report, with the constant entries left out
pub record Report : Type 0 where
  pub environment : String
  pub local_date : String
  pub day : Day
  pub source_scope : Option Dict
  pub accepted : ℕ
  pub pending : ℕ
  pub settled : ProcessingOutcome → ℕ
  pub outcome_rates : ProcessingOutcome → Rate
  pub by_service : Service → ServiceCount
  pub by_access_class : AccessClass → AccessCount
  pub terminal_reasons : String → ℕ
  pub provider_attempts : ProviderFamily → ProviderCount
  pub internal_attempts : AttemptCount
  pub request_rejections : Service → String → ℕ
  pub terminal_without_accepted : ℕ
  pub finish_without_start : ℕ
  pub attempt_without_accepted : ℕ

abbrev rate : ℕ → ℕ → Rate
rate v total = record {
  numerator = v;
  denominator = total;
  fraction = if total == 0 then none else some (v, total);
}

unfoldable pub report_of :
    String → String → Day → Option Dict → CheckTally → AttemptTally → List Rejection → Report
unfolding sum_rejections
report_of environment local_day d scope checks attempts rejections =
    let accepted_total = over_services (λ s. (checks.services s).accepted) in
    let settled = λ (o : ProcessingOutcome). over_services (λ s. (checks.services s).settled o) in
    record {
      environment = environment;
      local_date = local_day;
      day = d;
      source_scope = scope;
      accepted = accepted_total;
      pending = over_services (λ s. (checks.services s).pending);
      settled = settled;
      outcome_rates = λ o. rate (settled o) accepted_total;
      by_service = checks.services;
      by_access_class = checks.classes;
      terminal_reasons = checks.reasons;
      provider_attempts = attempts.providers;
      internal_attempts = attempts.internal;
      request_rejections = sum_rejections d rejections (λ s r. 0);
      terminal_without_accepted = checks.missing_accepted;
      finish_without_start = attempts.missing_start;
      attempt_without_accepted = attempts.missing_accepted;
    }

-- `source_scope`, where it is given
abbrev pub scope_for : Option Value → String → Outcome Fault (Option Dict)
scope_for none environment = ok none
scope_for (some v) environment = do
  scope ← require (validate_scope v environment) invalid_argument
  ok (some scope)

unfoldable pub calculate :
    String
    → String
    → Day
    → Option Dict
    → List (Option Event)
    → List (Option Rejection)
    → Outcome Fault Report
calculate environment local_day d scope events snapshots = do
  batch ← gather environment d.as_of events empty_batch
  checks ← count_checks d batch.checks no_checks
  attempts ← count_attempts d batch.checks batch.attempts no_attempts
  rejections ← gather_rejections environment d.as_of snapshots []
  ok (report_of environment local_day d scope checks attempts rejections)

module _ (day_bounds : String → Option (ℕ × ℕ)) where
  unfoldable pub aggregate_day :
      List (Option Event)
      → List (Option Rejection)
      → String
      → String
      → ℕ
      → Option Value
      → Outcome Fault Report
  aggregate_day events snapshots local_day environment as_of source_scope = do
    raise_if (not (is_environment environment)) invalid_argument
    raise_if (ltb max_batch_facts (length events + length snapshots)) batch_bound_exceeded
    bounds ← require (day_bounds local_day) invalid_argument
    raise_if (ltb as_of bounds.0) invalid_argument
    raise_if (leb (bounds.0 + correction_seconds) as_of) correction_window_closed
    scope ← scope_for source_scope environment
    calculate environment local_day (record { start = bounds.0; finish = bounds.1; as_of = as_of })
        scope events snapshots

-- a capture that `validate_capture` passes
pub record Reference : Type 0 where
  pub logical_check_ref : String
  pub accepted_event_id : String
  pub terminal_event_id : String
  pub environment : String
  pub service : Service
  pub input_kind : String
  pub access_class : AccessClass
  pub accepted_at : ℕ
  pub expires_at : ℕ

pub record Capture : Type 0 where
  pub reference : Reference
  pub events : List (Option Event)

abbrev same_reference : Reference → Reference → Bool
same_reference a b =
    str_eq a.logical_check_ref b.logical_check_ref
    && str_eq a.accepted_event_id b.accepted_event_id
    && str_eq a.terminal_event_id b.terminal_event_id
    && str_eq a.environment b.environment
    && same_service a.service b.service
    && str_eq a.input_kind b.input_kind
    && same_class a.access_class b.access_class
    && (a.accepted_at == b.accepted_at)
    && (a.expires_at == b.expires_at)

-- `_put_unique(references, ref, reference)`
unfoldable pub put_reference : Reference → List Reference → Outcome Fault (List Reference)
unfolding put_unique
put_reference r [] = ok (r ∷ [])
put_reference r (q ∷ references) =
    if str_eq q.logical_check_ref r.logical_check_ref
    then (do put_unique same_reference (some q) r; ok (r ∷ references))
    else (do rest ← put_reference r references; ok (q ∷ rest))

-- what the loop over the captures keeps
pub record Selected : Type 0 where
  pub events : List (Option Event)
  pub references : List Reference

unfoldable pub take_capture : ℕ → Option Capture → Selected → Outcome Fault Selected
unfolding put_reference
take_capture as_of raw s = do
  c ← require raw invalid_event
  raise_if (not (str_eq c.reference.environment "dev")) environment_mismatch
  raise_if (ltb as_of c.reference.accepted_at) invalid_event_time
  raise_if (leb c.reference.expires_at as_of) linkage_expired
  references ← put_reference c.reference s.references
  raise_if (ltb max_batch_facts (length (s.events ++ c.events))) batch_bound_exceeded
  ok (record { events = s.events ++ c.events; references = references })

unfoldable pub take_captures : ℕ → List (Option Capture) → Selected → Outcome Fault Selected
unfolding take_capture
take_captures as_of [] s = ok s
take_captures as_of (raw ∷ captures) s = do
  taken ← take_capture as_of raw s
  take_captures as_of captures taken

unfoldable pub aggregate_selected_captures :
    (String → Option (ℕ × ℕ)) → List (Option Capture) → String → ℕ → Value → Outcome Fault Report
unfolding aggregate_day
aggregate_selected_captures day_bounds captures local_day as_of source_scope = do
  raise_if (ltb max_batch_facts (length captures)) invalid_argument
  scope ← require (validate_scope source_scope "dev") invalid_argument
  raise_if (not (is_text selected_dev (lookup "population" scope))) invalid_argument
  selected ← take_captures as_of captures (record { events = []; references = [] })
  aggregate_day day_bounds selected.events [] local_day "dev" as_of (some (Value.dict scope))

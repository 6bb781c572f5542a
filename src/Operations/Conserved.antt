-- ===== src/Operations/Conserved.antt =====
-- What the report of a day owes to the balance of its counts.
use amt_trust_check_radar_la.Base.{
  ℕ, ◌+◌, ◌≤◌, ◌<◌, ◌≡◌, subst, String, Option, some, List, [], ltb, leb, ok, bind-inverse,
  require-inverse, raise_if-inverse, arith,
}
use amt_trust_check_radar_la.Python.{Value, Dict}
use amt_trust_check_radar_la.Operations.Facts.{Service, ProviderFamily, Event, Rejection}
use amt_trust_check_radar_la.Operations.Gather.{Batch, gather, empty_batch}
use amt_trust_check_radar_la.Operations.Checks.{
  Day, CheckTally, no_checks, count_checks, over_outcomes, correction_seconds,
}
use amt_trust_check_radar_la.Operations.Attempts.{AttemptTally, no_attempts, count_attempts}
use amt_trust_check_radar_la.Operations.Rejections.{gather_rejections}
use amt_trust_check_radar_la.Operations.Report.{
  Report, report_of, calculate, aggregate_day, scope_for,
}
use amt_trust_check_radar_la.Operations.Balance.{
  over_classes, IsBalanced, ChecksBalanced, IsEven, ProviderBalanced, AttemptsBalanced,
  counted_checks-Balanced, counted_attempts-Balanced,
}

pub record Conserved (r : Report) : Type 0 where
  pub total : r.accepted ≡ r.pending + over_outcomes r.settled
  pub each_service : (s : Service) → IsBalanced (r.by_service s)
  pub both_ways : r.accepted ≡ over_classes (λ c. (r.by_access_class c).accepted)
  pub internal_even : IsEven r.internal_attempts
  pub each_provider : (p : ProviderFamily) → ProviderBalanced (r.provider_attempts p)

-- what a calculation went through
pub record Calculated (environment local_day : String) (d : Day) (scope : Option Dict)
    (events : List (Option Event)) (snapshots : List (Option Rejection)) (r : Report) : Type 0 where
  pub batch : Batch
  pub checks : CheckTally
  pub attempts : AttemptTally
  pub rejections : List Rejection
  pub gathered : gather environment d.as_of events empty_batch ≡ ok batch
  pub checks_counted : count_checks d batch.checks no_checks ≡ ok checks
  pub attempts_counted : count_attempts d batch.checks batch.attempts no_attempts ≡ ok attempts
  pub rejections_gathered : gather_rejections environment d.as_of snapshots [] ≡ ok rejections
  pub reported : report_of environment local_day d scope checks attempts rejections ≡ r

module _ {environment local_day : String} {d : Day} {scope : Option Dict}
    {events : List (Option Event)} {snapshots : List (Option Rejection)} {r : Report} where
  calculate-Calculated :
      calculate environment local_day d scope events snapshots ≡ ok r
      → Calculated environment local_day d scope events snapshots r
  unfolding calculate
  calculate-Calculated h =
      let (batch, e1, h1) = bind-inverse (gather environment d.as_of events empty_batch) _ h in
      let (checks, e2, h2) = bind-inverse (count_checks d batch.checks no_checks) _ h1 in
      let (attempts, e3, h3) =
        bind-inverse (count_attempts d batch.checks batch.attempts no_attempts) _ h2 in
      let (rejections, e4, h4) =
        bind-inverse (gather_rejections environment d.as_of snapshots []) _ h3 in
      record {
        batch = batch;
        checks = checks;
        attempts = attempts;
        rejections = rejections;
        gathered = e1;
        checks_counted = e2;
        attempts_counted = e3;
        rejections_gathered = e4;
        reported = cc;
      }

report_of-Conserved :
    (environment local_day : String) (d : Day) (scope : Option Dict) (checks : CheckTally)
    (attempts : AttemptTally) (rejections : List Rejection)
    → ChecksBalanced checks
    → AttemptsBalanced attempts
    → Conserved (report_of environment local_day d scope checks attempts rejections)
unfolding report_of
report_of-Conserved environment local_day d scope checks attempts rejections h k = record {
  total = omega (
    arith,
    h.each_service Service.message_check,
    h.each_service Service.url_check,
    h.each_service Service.recovery_clarification,
  );
  each_service = h.each_service;
  both_ways = h.both_ways;
  internal_even = k.internal_even;
  each_provider = k.each_provider;
}

Calculated-Conserved :
    {environment local_day : String} {d : Day} {scope : Option Dict} {events : List (Option Event)}
    {snapshots : List (Option Rejection)} {r : Report}
    → Calculated environment local_day d scope events snapshots r
    → Conserved r
Calculated-Conserved {environment} {local_day} {d} {scope} c = subst Conserved c.reported (
    report_of-Conserved environment local_day d scope c.checks c.attempts c.rejections
      ((counted_checks-Balanced d c.batch.checks).at c.checks c.checks_counted)
      ((counted_attempts-Balanced d c.batch.checks c.batch.attempts).at c.attempts
        c.attempts_counted))

-- the calculation behind a report, with the day that its guards have passed
pub record Reported (day_bounds : String → Option (ℕ × ℕ)) (events : List (Option Event))
    (snapshots : List (Option Rejection)) (local_day environment : String) (as_of : ℕ) (r : Report)
    : Type 0 where
  pub bounds : ℕ × ℕ
  pub scope : Option Dict
  pub known_day : day_bounds local_day ≡ some bounds
  pub begun : bounds.0 ≤ as_of
  pub open_window : as_of < bounds.0 + correction_seconds
  pub calculated :
      Calculated environment local_day
        (record { start = bounds.0; finish = bounds.1; as_of = as_of })
        scope
        events
        snapshots
        r

module _ (day_bounds : String → Option (ℕ × ℕ)) where
  pub aggregate_day-Reported :
      (events : List (Option Event)) (snapshots : List (Option Rejection))
      (local_day environment : String) (as_of : ℕ) (source_scope : Option Value) (r : Report)
      → aggregate_day day_bounds events snapshots local_day environment as_of source_scope ≡ ok r
      → Reported day_bounds events snapshots local_day environment as_of r
  unfolding aggregate_day
  aggregate_day-Reported events snapshots local_day environment as_of source_scope r h =
      let (e1, h1) = raise_if-inverse _ _ _ h in
      let (e2, h2) = raise_if-inverse _ _ _ h1 in
      let (bounds, e3, h3) = require-inverse (day_bounds local_day) _ _ h2 in
      let (e4, h4) = raise_if-inverse (ltb as_of bounds.0) _ _ h3 in
      let (e5, h5) = raise_if-inverse (leb (bounds.0 + correction_seconds) as_of) _ _ h4 in
      let (scope, e6, h6) = bind-inverse (scope_for source_scope environment) _ h5 in
      record {
        bounds = bounds;
        scope = scope;
        known_day = e3;
        begun = ground arith;
        open_window = ground arith;
        calculated = calculate-Calculated h6;
      }

  -- In every report the accepted checks are the pending and the settled ones, in total and for each
  -- service, and the same number by class of access; the started attempts are those that await their
  -- finish, succeeded, failed or were denied, and those of a provider are those with a known and
  -- with an unknown cost, and with known and with unknown units.
  pub aggregate_day-Conserved :
      (events : List (Option Event)) (snapshots : List (Option Rejection))
      (local_day environment : String) (as_of : ℕ) (source_scope : Option Value) (r : Report)
      → aggregate_day day_bounds events snapshots local_day environment as_of source_scope ≡ ok r
      → Conserved r
  aggregate_day-Conserved events snapshots local_day environment as_of source_scope r h =
      Calculated-Conserved
        (aggregate_day-Reported events snapshots local_day environment as_of source_scope r
          h).calculated

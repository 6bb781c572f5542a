-- ===== src/Operations/Counted.antt =====
-- The accepted checks of a report against a direct count of the checks of the batch.
use amt_trust_check_radar_la.Base.{
  ℕ, ◌+◌, ◌≡◌, String, Bool, false, ◌&&◌, Option, none, some, List, [], ◌∷◌, if◌then◌else◌, ok,
  bind-inverse, raise_if-inverse, ok-injective, subst, arith,
}
use amt_trust_check_radar_la.Python.{Value}
use amt_trust_check_radar_la.Operations.Facts.{
  Service, Event, Rejection, Accepted, Terminal, same_service,
}
use amt_trust_check_radar_la.Operations.Gather.{Check, Batch, gather, empty_batch}
use amt_trust_check_radar_la.Operations.Checks.{
  Day, in_day, CheckTally, no_checks, service_after, counted_check, settles, take_accepted,
  take_check, count_checks,
}
use amt_trust_check_radar_la.Operations.Report.{Report, report_of, aggregate_day}
use amt_trust_check_radar_la.Operations.Conserved.{Reported, aggregate_day-Reported}

abbrev pub number_of_those : (Check → Bool) → List Check → ℕ
number_of_those p [] = 0
number_of_those p (c ∷ checks) = (if p c then 1 else 0) + number_of_those p checks

abbrev accepted_for : Day → Service → Option Accepted → Bool
accepted_for d s none = false
accepted_for d s (some a) = in_day d a.head.event_time && same_service a.head.service s

-- a check of the service that was accepted in the day
abbrev pub accepted_in : Day → Service → Check → Bool
accepted_in d s c = accepted_for d s c.accepted

module _ (d : Day) (s : Service) where
  counted_check-accepted :
      (a : Accepted) (t : Option Terminal) (tally : CheckTally)
      → ((counted_check a t tally).services s).accepted
        ≡ (tally.services s).accepted + (if same_service a.head.service s then 1 else 0)
  unfolding counted_check service_after
  counted_check-accepted a none tally = ground arith
  counted_check-accepted a (some t) tally = ground arith

  take_accepted-counts :
      (o : Option Accepted) (t : Option Terminal) (tally after : CheckTally)
      → take_accepted d o t tally ≡ ok after
      → (after.services s).accepted
        ≡ (tally.services s).accepted + (if accepted_for d s o then 1 else 0)
  take_accepted-counts none t tally after h =
      subst (λ (x : CheckTally). (x.services s).accepted ≡ (tally.services s).accepted + 0)
        (ok-injective h) (omega arith)
  take_accepted-counts (some a) t tally after h =
      let (late, h1) = raise_if-inverse _ _ _ h in
      let (u, e, h2) = bind-inverse (settles a t) _ h1 in
      subst
        (λ (x : CheckTally).
          (x.services s).accepted
          ≡ (tally.services s).accepted + (if accepted_for d s (some a) then 1 else 0))
        (ok-injective h2) (ground (arith, counted_check-accepted a t tally))

  count_checks-counts :
      (checks : List Check) (tally after : CheckTally)
      → count_checks d checks tally ≡ ok after
      → (after.services s).accepted
        ≡ (tally.services s).accepted + number_of_those (accepted_in d s) checks
  unfolding count_checks take_check
  count_checks-counts [] tally after h =
      subst (λ (x : CheckTally). (x.services s).accepted ≡ (tally.services s).accepted + 0)
        (ok-injective h) (omega arith)
  count_checks-counts (c ∷ checks) tally after h =
      let (taken, t, h1) = bind-inverse (take_check d c tally) _ h in
      omega (
        arith,
        take_accepted-counts c.accepted c.terminal tally taken t,
        count_checks-counts checks taken after h1,
      )

-- A report counts for each service the checks of the gathered batch that were accepted in its day.
pub aggregate_day-counts :
    (day_bounds : String → Option (ℕ × ℕ)) (events : List (Option Event))
    (snapshots : List (Option Rejection)) (local_day environment : String) (as_of : ℕ)
    (source_scope : Option Value) (r : Report)
    → aggregate_day day_bounds events snapshots local_day environment as_of source_scope ≡ ok r
    → (s : Service)
    → (batch : Batch) × (gather environment as_of events empty_batch ≡ ok batch)
      × ((r.by_service s).accepted ≡ number_of_those (accepted_in r.day s) batch.checks)
unfolding report_of
aggregate_day-counts day_bounds events snapshots local_day environment as_of source_scope r h s =
    let p : Reported day_bounds events snapshots local_day environment as_of r =
      aggregate_day-Reported day_bounds events snapshots local_day environment as_of source_scope r
        h in
    let c = p.calculated in
    let d : Day = record { start = p.bounds.0; finish = p.bounds.1; as_of = as_of } in
    (
      c.batch,
      c.gathered,
      subst
          (λ (x : Report).
            (x.by_service s).accepted ≡ number_of_those (accepted_in x.day s) c.batch.checks)
          c.reported
          (omega
            (arith, count_checks-counts d s c.batch.checks no_checks c.checks c.checks_counted)),
    )

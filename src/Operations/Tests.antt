-- ===== src/Operations/Tests.antt =====
-- A day with one settled and one pending check, and an attempt of the first.
use amt_trust_check_radar_la.Base.{
  ℕ, ◌≡◌, refl, inl, inr, String, true, Option, none, some, List, [], ◌∷◌, ◌++◌, map, str_eq,
  if◌then◌else◌, Outcome, ok, err, ◌>>=◌, arith,
}
use amt_trust_check_radar_la.Python.{text, int, pos, dict, Dict, end, entry, lookup, is_text}
use amt_trust_check_radar_la.Operations.Facts.{
  message_check, trial, charged, complete, google_web_risk, provider_call, succeeded, Head,
  Accepted, Terminal, Started, Finished, Event, check_accepted, check_terminal, attempt_started,
  attempt_finished, same_event, Rejection,
}
use amt_trust_check_radar_la.Operations.Scope.{validate_scope, selected_dev}
use amt_trust_check_radar_la.Operations.Gather.{
  gather, take_event, place, store, empty_batch, Batch, put_unique, with_entry,
}
use amt_trust_check_radar_la.Operations.Checks.{
  no_checks, count_checks, take_check, settles, counted_check, service_after, class_after,
}
use amt_trust_check_radar_la.Operations.Attempts.{
  no_attempts, count_attempts, take_attempt, ends, within_check, claim_ordinal, counted_attempt,
  provider_after, attempt_after,
}
use amt_trust_check_radar_la.Operations.Rejections.{
  gather_rejections, take_rejection, put_rejection, sum_rejections, reconcile_rejection_snapshot,
  replaces,
}
use amt_trust_check_radar_la.Operations.Report.{
  Report, Capture, report_of, calculate, aggregate_day, aggregate_selected_captures, take_captures,
  take_capture, put_reference,
}
use amt_trust_check_radar_la.Operations.Conserved.{Conserved, aggregate_day-Conserved}
use amt_trust_check_radar_la.Operations.Replay.{aggregate_day-replay}
use amt_trust_check_radar_la.Operations.Counted.{aggregate_day-counts, number_of_those, accepted_in}
use amt_trust_check_radar_la.Operations.Priced.{Charges, aggregate_day-Charges}
use amt_trust_check_radar_la.Operations.Selected.{
  AllCurrent, all_events, aggregate_selected_captures-Current, Replaced,
  reconcile_rejection_snapshot-Replaced,
}

abbrev head : String → ℕ → String → Head
head id time ref = record {
  event_id = id;
  event_time = time;
  environment = "dev";
  service = message_check;
  input_kind = "ocr";
  logical_check_ref = ref;
}

abbrev first_accepted : Accepted
first_accepted = record { head = head "op1_1" 1100 "lc1_1"; access_class = trial }

abbrev second_accepted : Accepted
second_accepted = record { head = head "op1_2" 1200 "lc1_2"; access_class = trial }

abbrev first_terminal : Terminal
first_terminal = record {
  head = head "op1_3" 1130 "lc1_1";
  access_class = trial;
  processing_outcome = complete;
  accounting_state = charged;
  charged_checks = 1;
  reason_code = "NONE";
}

abbrev began : Started
began = record {
  head = head "op1_4" 1110 "lc1_1";
  attempt = record {
    attempt_ref = "at1_1";
    attempt_kind = provider_call google_web_risk;
    component = "message_evaluator";
    attempt_ordinal = 1;
  };
}

abbrev ended : Finished
ended = record {
  head = head "op1_5" 1120 "lc1_1";
  attempt = began.attempt;
  reason_code = "NONE";
  attempt_outcome = succeeded;
  duration_bucket = "1_4s";
  provider_request_units = some 1;
  estimated_cost = none;
}

abbrev events : List (Option Event)
events =
    some (check_accepted first_accepted)
    ∷ some (check_terminal first_terminal)
    ∷ some (check_accepted second_accepted)
    ∷ some (attempt_started began)
    ∷ some (attempt_finished ended)
    ∷ []

abbrev rejection : ℕ → Rejection
rejection n = record {
  window_start = 1200;
  environment = "dev";
  service = message_check;
  reason_code = "RATE_LIMITED";
  rejected_count = n;
}

abbrev snapshots : List (Option Rejection)
snapshots = some (rejection 4) ∷ []

abbrev bounds_of : String → Option (ℕ × ℕ)
bounds_of s = if str_eq s "2026-07-01" then some (1000, 87400) else none

abbrev value_of {ℓ} : {E A : Type ℓ} → Outcome E A → A → A
value_of (ok a) other = a
value_of (err e) other = other

abbrev empty_report : Report
empty_report =
    report_of "" "" (record { start = 0; finish = 0; as_of = 0 }) none no_checks no_attempts []

abbrev report : Report
unfolding aggregate_day calculate gather take_event place store put_unique with_entry count_checks
    take_check settles counted_check service_after class_after count_attempts take_attempt ends
    within_check claim_ordinal counted_attempt provider_after attempt_after gather_rejections
    take_rejection put_rejection report_of sum_rejections ◌>>=◌ same_event
report =
    value_of (aggregate_day bounds_of events snapshots "2026-07-01" "dev" 2000 none) empty_report

reported : aggregate_day bounds_of events snapshots "2026-07-01" "dev" 2000 none ≡ ok report
unfolding report aggregate_day calculate gather take_event place store put_unique with_entry
    count_checks take_check settles counted_check service_after class_after count_attempts
    take_attempt ends within_check claim_ordinal counted_attempt provider_after attempt_after
    gather_rejections take_rejection put_rejection report_of sum_rejections ◌>>=◌ same_event
reported = refl

counts : Report → ℕ × ℕ × ℕ
counts r =
    (r.accepted, r.pending, (r.provider_attempts google_web_risk).attempts.succeeded_attempts)

day_counts : counts report ≡ (2, 1, 1)
unfolding counts report aggregate_day calculate gather take_event place store put_unique with_entry
    count_checks take_check settles counted_check service_after class_after count_attempts
    take_attempt ends within_check claim_ordinal counted_attempt provider_after attempt_after
    gather_rejections take_rejection put_rejection report_of sum_rejections ◌>>=◌ same_event
day_counts = refl

aggregate_day-Conserved_example : Conserved report
aggregate_day-Conserved_example =
    aggregate_day-Conserved bounds_of events snapshots "2026-07-01" "dev" 2000 none report reported

aggregate_day-counts_example :
    (batch : Batch) × (gather "dev" 2000 events empty_batch ≡ ok batch)
    × ((report.by_service message_check).accepted
        ≡ number_of_those (accepted_in report.day message_check) batch.checks)
aggregate_day-counts_example =
    aggregate_day-counts bounds_of events snapshots "2026-07-01" "dev" 2000 none report reported
      message_check

aggregate_day-Charges_example : Charges (report.by_access_class trial)
aggregate_day-Charges_example =
    aggregate_day-Charges bounds_of events snapshots "2026-07-01" "dev" 2000 none report
      (tt, (record { one_check = λ h. refl; for_a_result = λ h. refl }, (tt, (tt, (tt, tt)))))
      reported trial

repeats : List Event
repeats = check_terminal first_terminal ∷ check_accepted first_accepted ∷ []

aggregate_day-replay_example :
    aggregate_day bounds_of (events ++ map some repeats) snapshots "2026-07-01" "dev" 2000 none
    ≡ aggregate_day bounds_of events snapshots "2026-07-01" "dev" 2000 none
unfolding repeats
aggregate_day-replay_example =
    aggregate_day-replay bounds_of events repeats snapshots "2026-07-01" "dev" 2000 none
      (inr (inl refl), (inl refl, tt)) (omega arith)

reconcile_rejection_snapshot-Replaced_example :
    Replaced (rejection 4) (rejection 6) (rejection 6)
    × ((s : Rejection)
        → reconcile_rejection_snapshot (some (some (rejection 6))) (some (rejection 4)) ≡ ok s
        → (rejection 4).rejected_count ≡ (rejection 6).rejected_count)
unfolding reconcile_rejection_snapshot replaces ◌>>=◌
reconcile_rejection_snapshot-Replaced_example =
    reconcile_rejection_snapshot-Replaced (rejection 4) (rejection 6) (rejection 6) refl

abbrev scope : Dict
scope = entry "schemaVersion" (int (pos 1)) (
    entry "population" (text "selected_dev") (
      entry "generation" (text "3f2b8c1e-9a4d-4e6f-8b21-0c9d7e5f6a1b") (
        entry "sourceContract" (text "authority-receipt-capture-v2")
          (entry "coverage" (text "selected_subset_not_environment_total") end))))

abbrev capture : Capture
capture = record {
  reference = record {
    logical_check_ref = "lc1_1";
    accepted_event_id = "op1_1";
    terminal_event_id = "op1_3";
    environment = "dev";
    service = message_check;
    input_kind = "ocr";
    access_class = trial;
    accepted_at = 1100;
    expires_at = 605900;
  };
  events = some (check_accepted first_accepted) ∷ some (check_terminal first_terminal) ∷ [];
}

abbrev selected_report : Report
unfolding aggregate_selected_captures take_captures take_capture put_reference validate_scope
    aggregate_day calculate gather take_event place store put_unique with_entry count_checks
    take_check settles counted_check service_after class_after count_attempts take_attempt ends
    within_check claim_ordinal counted_attempt provider_after attempt_after gather_rejections
    take_rejection put_rejection report_of sum_rejections ◌>>=◌ same_event
selected_report =
    value_of
      (aggregate_selected_captures bounds_of (some capture ∷ []) "2026-07-01" 2000 (dict scope))
      empty_report

aggregate_selected_captures-Current_example :
    (d : Dict) × (validate_scope (dict scope) "dev" ≡ some d)
    × (is_text selected_dev (lookup "population" d) ≡ true)
    × AllCurrent 2000 (some capture ∷ [])
    × (aggregate_day bounds_of
          (all_events (some capture ∷ []))
          []
          "2026-07-01"
          "dev"
          2000
          (some (dict d))
        ≡ ok selected_report)
unfolding selected_report aggregate_selected_captures take_captures take_capture put_reference
    validate_scope aggregate_day calculate gather take_event place store put_unique with_entry
    count_checks take_check settles counted_check service_after class_after count_attempts
    take_attempt ends within_check claim_ordinal counted_attempt provider_after attempt_after
    gather_rejections take_rejection put_rejection report_of sum_rejections ◌>>=◌ same_event
aggregate_selected_captures-Current_example =
    aggregate_selected_captures-Current bounds_of (some capture ∷ []) "2026-07-01" 2000 (dict scope)
      selected_report refl

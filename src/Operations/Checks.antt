-- ===== src/Operations/Checks.antt =====
-- The second loop of `aggregate_day`: the accepted checks of the day are counted by service and by
-- access class. A table with an entry for each key is a function, and so is the `Counter` of the
-- reasons, with 0 where it has no entry.
use amt_trust_check_radar_la.Base.{
  ℕ, ◌+◌, String, Bool, ◌&&◌, not, Option, none, some, List, [], ◌∷◌, ltb, leb, str_eq,
  if◌then◌else◌, Outcome, ok, ◌>>=◌, ◌>>◌, raise_if,
}
use amt_trust_check_radar_la.Operations.Facts.{
  Service, ProcessingOutcome, complete, partial, inconclusive, failed, blocked, invalid_input,
  unsupported, unavailable, AccessClass, AccountingState, charged, not_charged, Accepted, Terminal,
  message_check, url_check, recovery_clarification, same_service, same_class, same_outcome,
  same_context, Fault, linkage_expired, check_context_conflict, invalid_event_time,
}
use amt_trust_check_radar_la.Operations.Gather.{Check}

abbrev pub correction_seconds : ℕ
correction_seconds = 604800

-- the local day, half open, and the time of the calculation
pub record Day : Type 0 where
  pub start : ℕ
  pub finish : ℕ
  pub as_of : ℕ

abbrev pub in_day : Day → ℕ → Bool
in_day d t = leb d.start t && ltb t d.finish

pub record ServiceCount : Type 0 where
  pub accepted : ℕ
  pub pending : ℕ
  pub settled : ProcessingOutcome → ℕ

pub record AccessCount : Type 0 where
  pub accepted : ℕ
  pub complete_checks : ℕ
  pub deducted : ℕ
  pub no_deduction : ℕ
  pub settlement_unknown : ℕ

pub record CheckTally : Type 0 where
  pub services : Service → ServiceCount
  pub classes : AccessClass → AccessCount
  pub reasons : String → ℕ
  pub missing_accepted : ℕ

abbrev pub no_checks : CheckTally
no_checks = record {
  services = λ s. record { accepted = 0; pending = 0; settled = λ o. 0 };
  classes = λ c. record {
    accepted = 0;
    complete_checks = 0;
    deducted = 0;
    no_deduction = 0;
    settlement_unknown = 0;
  };
  reasons = λ r. 0;
  missing_accepted = 0;
}

-- `table[key]` is changed
abbrev pub change_at : {K V : Type 0} → (K → K → Bool) → K → (V → V) → (K → V) → K → V
change_at same k f table j = if same k j then f (table j) else table j

abbrev pub one_more : ℕ → ℕ
one_more n = n + 1

abbrev pub one_if : Bool → ℕ
one_if b = if b then 1 else 0

unfoldable pub service_after : Option Terminal → ServiceCount → ServiceCount
service_after none c = record c { accepted = c.accepted + 1; pending = c.pending + 1 }
service_after (some t) c = record c {
  accepted = c.accepted + 1;
  settled = change_at same_outcome t.processing_outcome one_more c.settled;
}

abbrev accounted : AccountingState → ℕ → AccessCount → AccessCount
accounted charged n c = record c { deducted = c.deducted + n }
accounted not_charged n c = record c { no_deduction = c.no_deduction + 1 }

unfoldable pub class_after : Option Terminal → AccessCount → AccessCount
class_after none c = record c {
  accepted = c.accepted + 1;
  settlement_unknown = c.settlement_unknown + 1;
}
class_after (some t) c = accounted t.accounting_state t.charged_checks (record c {
  accepted = c.accepted + 1;
  complete_checks = c.complete_checks + one_if (same_outcome t.processing_outcome complete);
})

abbrev reasons_after : Option Terminal → (String → ℕ) → String → ℕ
reasons_after none reasons = reasons
reasons_after (some t) reasons = change_at str_eq t.reason_code one_more reasons

-- the counts of one accepted check of the day
unfoldable pub counted_check : Accepted → Option Terminal → CheckTally → CheckTally
unfolding service_after class_after
counted_check a t tally = record tally {
  services = change_at same_service a.head.service (service_after t) tally.services;
  classes = change_at same_class a.access_class (class_after t) tally.classes;
  reasons = reasons_after t tally.reasons;
}

-- a terminal fact belongs to the check that it settles
unfoldable pub settles : Accepted → Option Terminal → Outcome Fault Unit
settles a none = ok tt
settles a (some t) = do
  raise_if (not (same_context a.head t.head && same_class a.access_class t.access_class))
      check_context_conflict
  raise_if (ltb t.head.event_time a.head.event_time) invalid_event_time

abbrev pub take_accepted :
    Day → Option Accepted → Option Terminal → CheckTally → Outcome Fault CheckTally
take_accepted d none t tally = ok (record tally { missing_accepted = tally.missing_accepted + 1 })
take_accepted d (some a) t tally = do
  raise_if (leb (a.head.event_time + correction_seconds) d.as_of) linkage_expired
  settles a t
  ok (if in_day d a.head.event_time then counted_check a t tally else tally)

unfoldable pub take_check : Day → Check → CheckTally → Outcome Fault CheckTally
unfolding settles counted_check
take_check d c tally = take_accepted d c.accepted c.terminal tally

unfoldable pub count_checks : Day → List Check → CheckTally → Outcome Fault CheckTally
unfolding take_check
count_checks d [] tally = ok tally
count_checks d (c ∷ checks) tally = do taken ← take_check d c tally; count_checks d checks taken

-- `sum(s[...] for s in service_counts.values())`
abbrev pub over_services : (Service → ℕ) → ℕ
over_services f = f message_check + f url_check + f recovery_clarification

abbrev pub over_outcomes : (ProcessingOutcome → ℕ) → ℕ
over_outcomes f =
    f complete
    + f partial
    + f inconclusive
    + f failed
    + f blocked
    + f invalid_input
    + f unsupported
    + f unavailable

-- ===== src/Operations/Facts.antt =====
-- The facts of a batch, as event.schema.json and rejection.schema.json admit them: one data type for
-- each phase of an event, with the fields that the phase leaves null or constant left out.
use amt_trust_check_radar_la.Base.{
  ℕ, String, Bool, true, false, ◌&&◌, ◌≡◌, refl, Option, none, some, str_eq, eq_refl, ◌==◌, arith,
}

pub data Service : Type 0 where
  message_check url_check recovery_clarification : Service

pub data ProcessingOutcome : Type 0 where
  complete partial inconclusive failed : ProcessingOutcome
  blocked invalid_input unsupported unavailable : ProcessingOutcome

pub data AccessClass : Type 0 where
  trial paid complimentary : AccessClass

pub data ProviderFamily : Type 0 where
  google_web_risk openai : ProviderFamily

pub data AttemptKind : Type 0 where
  internal_component : AttemptKind
  provider_call : ProviderFamily → AttemptKind

pub data AttemptOutcome : Type 0 where
  succeeded failed denied : AttemptOutcome

pub data AccountingState : Type 0 where
  charged not_charged : AccountingState

pub record Head : Type 0 where
  pub event_id : String
  pub event_time : ℕ
  pub environment : String
  pub service : Service
  pub input_kind : String
  pub logical_check_ref : String

pub record Accepted : Type 0 where
  pub head : Head
  pub access_class : AccessClass

pub record Terminal : Type 0 where
  pub head : Head
  pub access_class : AccessClass
  pub processing_outcome : ProcessingOutcome
  pub accounting_state : AccountingState
  pub charged_checks : ℕ
  pub reason_code : String

pub record Attempt : Type 0 where
  pub attempt_ref : String
  pub attempt_kind : AttemptKind
  pub component : String
  pub attempt_ordinal : ℕ

pub record Started : Type 0 where
  pub head : Head
  pub attempt : Attempt

pub record Finished : Type 0 where
  pub head : Head
  pub attempt : Attempt
  pub reason_code : String
  pub attempt_outcome : AttemptOutcome
  pub duration_bucket : String
  pub provider_request_units : Option ℕ
  pub estimated_cost : Option ℕ

pub data Event : Type 0 where
  check_accepted : Accepted → Event
  check_terminal : Terminal → Event
  attempt_started : Started → Event
  attempt_finished : Finished → Event

abbrev pub head_of : Event → Head
head_of (check_accepted a) = a.head
head_of (check_terminal t) = t.head
head_of (attempt_started s) = s.head
head_of (attempt_finished f) = f.head

pub record Rejection : Type 0 where
  pub window_start : ℕ
  pub environment : String
  pub service : Service
  pub reason_code : String
  pub rejected_count : ℕ

-- the codes of `ProjectionFault` that the calculation raises
pub data Fault : Type 0 where
  invalid_argument batch_bound_exceeded invalid_event invalid_rejection : Fault
  environment_mismatch event_id_conflict fact_conflict check_context_conflict : Fault
  attempt_context_conflict invalid_event_time attempt_ordinal_conflict : Fault
  stale_rejection correction_window_closed linkage_expired rejection_context_conflict : Fault

abbrev pub same_service : Service → Service → Bool
same_service message_check message_check = true
same_service url_check url_check = true
same_service recovery_clarification recovery_clarification = true
same_service _ _ = false

abbrev pub same_class : AccessClass → AccessClass → Bool
same_class trial trial = true
same_class paid paid = true
same_class complimentary complimentary = true
same_class _ _ = false

abbrev pub same_outcome : ProcessingOutcome → ProcessingOutcome → Bool
same_outcome complete complete = true
same_outcome partial partial = true
same_outcome inconclusive inconclusive = true
same_outcome failed failed = true
same_outcome blocked blocked = true
same_outcome invalid_input invalid_input = true
same_outcome unsupported unsupported = true
same_outcome unavailable unavailable = true
same_outcome _ _ = false

abbrev pub same_family : ProviderFamily → ProviderFamily → Bool
same_family google_web_risk google_web_risk = true
same_family openai openai = true
same_family _ _ = false

abbrev pub same_kind : AttemptKind → AttemptKind → Bool
same_kind internal_component internal_component = true
same_kind (provider_call p) (provider_call q) = same_family p q
same_kind _ _ = false

abbrev same_state : AccountingState → AccountingState → Bool
same_state charged charged = true
same_state not_charged not_charged = true
same_state _ _ = false

abbrev same_result : AttemptOutcome → AttemptOutcome → Bool
same_result succeeded succeeded = true
same_result failed failed = true
same_result denied denied = true
same_result _ _ = false

abbrev same_count : Option ℕ → Option ℕ → Bool
same_count none none = true
same_count (some m) (some n) = m == n
same_count _ _ = false

-- `_same` on the fields that both phases of a check carry, the access class excepted
abbrev pub same_context : Head → Head → Bool
same_context a b =
    str_eq a.environment b.environment
    && same_service a.service b.service
    && str_eq a.input_kind b.input_kind
    && str_eq a.logical_check_ref b.logical_check_ref

abbrev pub same_attempt : Attempt → Attempt → Bool
same_attempt a b =
    str_eq a.attempt_ref b.attempt_ref
    && same_kind a.attempt_kind b.attempt_kind
    && str_eq a.component b.component
    && (a.attempt_ordinal == b.attempt_ordinal)

abbrev same_head : Head → Head → Bool
same_head a b = str_eq a.event_id b.event_id && (a.event_time == b.event_time) && same_context a b

-- equality of validated events
abbrev pub same_accepted : Accepted → Accepted → Bool
same_accepted a b = same_head a.head b.head && same_class a.access_class b.access_class

abbrev pub same_terminal : Terminal → Terminal → Bool
same_terminal a b =
    same_head a.head b.head
    && same_class a.access_class b.access_class
    && same_outcome a.processing_outcome b.processing_outcome
    && same_state a.accounting_state b.accounting_state
    && (a.charged_checks == b.charged_checks)
    && str_eq a.reason_code b.reason_code

abbrev pub same_started : Started → Started → Bool
same_started a b = same_head a.head b.head && same_attempt a.attempt b.attempt

abbrev pub same_finished : Finished → Finished → Bool
same_finished a b =
    same_head a.head b.head
    && same_attempt a.attempt b.attempt
    && str_eq a.reason_code b.reason_code
    && same_result a.attempt_outcome b.attempt_outcome
    && str_eq a.duration_bucket b.duration_bucket
    && same_count a.provider_request_units b.provider_request_units
    && same_count a.estimated_cost b.estimated_cost

unfoldable pub same_event : Event → Event → Bool
same_event (check_accepted a) (check_accepted b) = same_accepted a b
same_event (check_terminal a) (check_terminal b) = same_terminal a b
same_event (attempt_started a) (attempt_started b) = same_started a b
same_event (attempt_finished a) (attempt_finished b) = same_finished a b
same_event _ _ = false

same_service_self : (s : Service) → same_service s s ≡ true
same_service_self s = ground arith

same_class_self : (c : AccessClass) → same_class c c ≡ true
same_class_self c = ground arith

same_outcome_self : (o : ProcessingOutcome) → same_outcome o o ≡ true
same_outcome_self o = ground arith

same_kind_self : (k : AttemptKind) → same_kind k k ≡ true
same_kind_self k = ground arith

same_state_self : (s : AccountingState) → same_state s s ≡ true
same_state_self s = ground arith

same_result_self : (r : AttemptOutcome) → same_result r r ≡ true
same_result_self r = ground arith

same_count_self : (c : Option ℕ) → same_count c c ≡ true
same_count_self none = refl
same_count_self (some n) = ground arith

same_number_self : (n : ℕ) → (n == n) ≡ true
same_number_self n = ground arith

ruleset itself = (
  same_service_self, same_class_self, same_outcome_self, same_kind_self, same_state_self,
  same_result_self, same_count_self, same_number_self, eq_refl,
)

pub same_event_self : (e : Event) → same_event e e ≡ true
unfolding same_event
same_event_self (check_accepted a) = simp itself
same_event_self (check_terminal t) = simp itself
same_event_self (attempt_started s) = simp itself
same_event_self (attempt_finished f) = simp itself

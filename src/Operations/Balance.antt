-- ===== src/Operations/Balance.antt =====
-- The counts of the checks and of the attempts stay balanced under each fact that is counted.
use amt_trust_check_radar_la.Base.{
  ℕ, ◌+◌, ◌≡◌, refl, Bool, true, false, Option, none, some, List, [], ◌∷◌, if◌then◌else◌, Ensures,
  Ensures-ok, Ensures-bind, Ensures-raise_if, arith,
}
use amt_trust_check_radar_la.Operations.Facts.{
  Service, message_check, url_check, recovery_clarification, ProcessingOutcome, AccessClass, trial,
  paid, complimentary, ProviderFamily, AttemptKind, internal_component, provider_call, Accepted,
  Terminal, Started, Finished, same_service, same_class, same_outcome, same_family,
}
use amt_trust_check_radar_la.Operations.Gather.{Check, Tried}
use amt_trust_check_radar_la.Operations.Checks.{
  Day, in_day, ServiceCount, AccessCount, CheckTally, no_checks, change_at, one_more, service_after,
  class_after, counted_check, settles, take_accepted, take_check, count_checks, over_services,
  over_outcomes,
}
use amt_trust_check_radar_la.Operations.Attempts.{
  AttemptCount, ProviderCount, AttemptTally, no_attempts, attempt_after, provider_after,
  counted_attempt, ends, within_check, claim_ordinal, accepted_of, terminal_of, take_within,
  take_started, take_attempt, count_attempts,
}

abbrev pub over_classes : (AccessClass → ℕ) → ℕ
over_classes f = f trial + f paid + f complimentary

abbrev pub IsBalanced : ServiceCount → Type 0
IsBalanced c = c.accepted ≡ c.pending + over_outcomes c.settled

pub record ChecksBalanced (t : CheckTally) : Type 0 where
  pub each_service : (s : Service) → IsBalanced (t.services s)
  pub both_ways :
      over_services (λ s. (t.services s).accepted) ≡ over_classes (λ c. (t.classes c).accepted)

abbrev pub IsEven : AttemptCount → Type 0
IsEven c =
    c.started ≡ c.awaiting_finish + c.succeeded_attempts + c.failed_attempts + c.denied_attempts

pub record ProviderBalanced (c : ProviderCount) : Type 0 where
  pub outcomes : IsEven c.attempts
  pub costs : c.cost_known + c.cost_unknown ≡ c.attempts.started
  pub units : c.units_known + c.units_unknown ≡ c.attempts.started

pub record AttemptsBalanced (t : AttemptTally) : Type 0 where
  pub internal_even : IsEven t.internal
  pub each_provider : (p : ProviderFamily) → ProviderBalanced (t.providers p)

pub change_at-all :
    {K V : Type 0} (P : V → Type 0) (same : K → K → Bool) (k : K) (f : V → V) (table : K → V)
    → ((v : V) → P v → P (f v))
    → ((j : K) → P (table j))
    → (j : K) → P (change_at same k f table j)
change_at-all P same k f table step h j =
    elim (same k j) as (λ b. P (if b then f (table j) else table j)) [
      | true ↦ step (table j) (h j)
      | false ↦ h j
    ]

one_outcome :
    (o : ProcessingOutcome) (f : ProcessingOutcome → ℕ)
    → over_outcomes (change_at same_outcome o one_more f) ≡ over_outcomes f + 1
one_outcome o f = ground arith

service_after-IsBalanced :
    (t : Option Terminal) (c : ServiceCount) → IsBalanced c → IsBalanced (service_after t c)
unfolding service_after
service_after-IsBalanced none c h = omega arith
service_after-IsBalanced (some t) c h = omega (arith, one_outcome t.processing_outcome c.settled)

service_after-accepted :
    (t : Option Terminal) (c : ServiceCount) → (service_after t c).accepted ≡ c.accepted + 1
unfolding service_after
service_after-accepted none c = refl
service_after-accepted (some t) c = refl

class_after-accepted :
    (t : Option Terminal) (c : AccessCount) → (class_after t c).accepted ≡ c.accepted + 1
unfolding class_after
class_after-accepted none c = refl
class_after-accepted (some t) c = ground arith

module _ (t : Option Terminal) where
  one_service :
      (k : Service) (table : Service → ServiceCount)
      → over_services (λ s. (change_at same_service k (service_after t) table s).accepted)
        ≡ over_services (λ s. (table s).accepted) + 1
  one_service message_check table = omega (arith, service_after-accepted t (table message_check))
  one_service url_check table = omega (arith, service_after-accepted t (table url_check))
  one_service recovery_clarification table =
      omega (arith, service_after-accepted t (table recovery_clarification))

  one_class :
      (k : AccessClass) (table : AccessClass → AccessCount)
      → over_classes (λ c. (change_at same_class k (class_after t) table c).accepted)
        ≡ over_classes (λ c. (table c).accepted) + 1
  one_class trial table = omega (arith, class_after-accepted t (table trial))
  one_class paid table = omega (arith, class_after-accepted t (table paid))
  one_class complimentary table = omega (arith, class_after-accepted t (table complimentary))

counted_check-Balanced :
    (a : Accepted) (t : Option Terminal) (tally : CheckTally)
    → ChecksBalanced tally
    → ChecksBalanced (counted_check a t tally)
unfolding counted_check
counted_check-Balanced a t tally h = record {
  each_service =
      change_at-all IsBalanced same_service a.head.service (service_after t) tally.services
        (service_after-IsBalanced t) h.each_service;
  both_ways = omega (
    arith,
    h.both_ways,
    one_service t a.head.service tally.services,
    one_class t a.access_class tally.classes,
  );
}

-- Facts of a loop are kept by its turns.
module _ {A : Type 0} (P : A → Type 0) where
  pub if-keeps : (c : Bool) (a b : A) → P a → P b → P (if c then a else b)
  if-keeps true a b p q = p
  if-keeps false a b p q = q

take_accepted-Balanced :
    (d : Day) (a : Option Accepted) (t : Option Terminal) (tally : CheckTally)
    → ChecksBalanced tally
    → Ensures ChecksBalanced (take_accepted d a t tally)
take_accepted-Balanced d none t tally h =
    Ensures-ok _ (record { each_service = h.each_service; both_ways = h.both_ways })
take_accepted-Balanced d (some a) t tally h = Ensures-raise_if _ _ _ λ _.
    Ensures-bind (settles a t) _ λ _ _. Ensures-ok _ (
      if-keeps ChecksBalanced (in_day d a.head.event_time) (counted_check a t tally) tally
        (counted_check-Balanced a t tally h) h)

count_checks-Balanced :
    (d : Day) (checks : List Check) (tally : CheckTally)
    → ChecksBalanced tally
    → Ensures ChecksBalanced (count_checks d checks tally)
unfolding count_checks take_check
count_checks-Balanced d [] tally h = Ensures-ok _ h
count_checks-Balanced d (c ∷ checks) tally h = Ensures-bind (take_check d c tally) _ λ taken e.
    count_checks-Balanced d checks taken
      ((take_accepted-Balanced d c.accepted c.terminal tally h).at taken e)

pub counted_checks-Balanced :
    (d : Day) (checks : List Check) → Ensures ChecksBalanced (count_checks d checks no_checks)
counted_checks-Balanced d checks =
    count_checks-Balanced d checks no_checks
      (record { each_service = λ s. omega arith; both_ways = omega arith })

attempt_after-IsEven :
    (f : Option Finished) (c : AttemptCount) → IsEven c → IsEven (attempt_after f c)
unfolding attempt_after
attempt_after-IsEven none c h = omega arith
attempt_after-IsEven (some f) c h = ground arith

attempt_after-started :
    (f : Option Finished) (c : AttemptCount) → (attempt_after f c).started ≡ c.started + 1
unfolding attempt_after
attempt_after-started none c = refl
attempt_after-started (some f) c = ground arith

provider_after-Balanced :
    (f : Option Finished) (c : ProviderCount)
    → ProviderBalanced c
    → ProviderBalanced (provider_after f c)
unfolding provider_after
provider_after-Balanced f c h = record {
  outcomes = ground (arith, attempt_after-IsEven f c.attempts);
  costs = ground (arith, attempt_after-started f c.attempts);
  units = ground (arith, attempt_after-started f c.attempts);
}

counted_attempt-Balanced :
    (k : AttemptKind) (f : Option Finished) (tally : AttemptTally)
    → AttemptsBalanced tally
    → AttemptsBalanced (counted_attempt k f tally)
unfolding counted_attempt
counted_attempt-Balanced internal_component f tally h = record {
  internal_even = attempt_after-IsEven f tally.internal h.internal_even;
  each_provider = h.each_provider;
}
counted_attempt-Balanced (provider_call p) f tally h = record {
  internal_even = h.internal_even;
  each_provider =
      change_at-all ProviderBalanced same_family p (provider_after f) tally.providers
        (provider_after-Balanced f) h.each_provider;
}

take_within-Balanced :
    (d : Day) (tried : Tried) (began : Started) (a : Option Accepted) (t : Option Terminal)
    (tally : AttemptTally)
    → AttemptsBalanced tally
    → Ensures AttemptsBalanced (take_within d tried began a t tally)
take_within-Balanced d tried began none t tally h =
    Ensures-ok _ (record { internal_even = h.internal_even; each_provider = h.each_provider })
take_within-Balanced d tried began (some a) t tally h =
    Ensures-bind (within_check began a t) _ λ _ _.
      Ensures-bind (claim_ordinal _ tally.ordinals) _ λ ordinals _.
        let claimed : AttemptTally = record tally { ordinals = ordinals } in
        let same : AttemptsBalanced claimed = record {
          internal_even = h.internal_even;
          each_provider = h.each_provider;
        } in
        Ensures-ok _ (
          if-keeps AttemptsBalanced (in_day d began.head.event_time)
            (counted_attempt began.attempt.attempt_kind tried.finished claimed) claimed
            (counted_attempt-Balanced began.attempt.attempt_kind tried.finished claimed same) same)

take_started-Balanced :
    (d : Day) (checks : List Check) (tried : Tried) (began : Option Started) (tally : AttemptTally)
    → AttemptsBalanced tally
    → Ensures AttemptsBalanced (take_started d checks tried began tally)
take_started-Balanced d checks tried none tally h =
    Ensures-ok _ (record { internal_even = h.internal_even; each_provider = h.each_provider })
take_started-Balanced d checks tried (some began) tally h =
    Ensures-bind (ends began tried.finished) _ λ _ _.
      take_within-Balanced d tried began (accepted_of began.head.logical_check_ref checks)
        (terminal_of began.head.logical_check_ref checks) tally h

count_attempts-Balanced :
    (d : Day) (checks : List Check) (attempts : List Tried) (tally : AttemptTally)
    → AttemptsBalanced tally
    → Ensures AttemptsBalanced (count_attempts d checks attempts tally)
unfolding count_attempts take_attempt
count_attempts-Balanced d checks [] tally h = Ensures-ok _ h
count_attempts-Balanced d checks (t ∷ attempts) tally h =
    Ensures-bind (take_attempt d checks t tally) _ λ taken e.
      count_attempts-Balanced d checks attempts taken
        ((take_started-Balanced d checks t t.began tally h).at taken e)

pub counted_attempts-Balanced :
    (d : Day) (checks : List Check) (attempts : List Tried)
    → Ensures AttemptsBalanced (count_attempts d checks attempts no_attempts)
counted_attempts-Balanced d checks attempts =
    count_attempts-Balanced d checks attempts no_attempts (record {
      internal_even = omega arith;
      each_provider =
          λ p. record { outcomes = omega arith; costs = omega arith; units = omega arith };
    })

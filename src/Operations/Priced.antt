-- ===== src/Operations/Priced.antt =====
-- What the schema's prices mean for the deductions of a report.
use amt_trust_check_radar_la.Base.{
  ℕ, ◌+◌, ◌≤◌, ◌≡◌, refl, String, true, false, Option, none, some, List, [], ◌∷◌, if◌then◌else◌,
  str_eq, Outcome, ok, ◌>>=◌, subst, sym, Ensures, Ensures-ok, Ensures-bind, Ensures-raise_if,
  Ensures-require, arith,
}
use amt_trust_check_radar_la.Python.{Value}
use amt_trust_check_radar_la.Operations.Facts.{
  AccessClass, charged, complete, Accepted, Terminal, Event, check_accepted, check_terminal,
  attempt_started, attempt_finished, Rejection, head_of, same_class, same_terminal, Fault,
}
use amt_trust_check_radar_la.Operations.Gather.{
  Check, Batch, put_unique, with_entry, new_check, new_tried, put_accepted, put_terminal,
  put_started, put_finished, store, find_event, place, take_event, gather, empty_batch,
}
use amt_trust_check_radar_la.Operations.Checks.{
  Day, in_day, AccessCount, CheckTally, no_checks, class_after, counted_check, settles,
  take_accepted, take_check, count_checks,
}
use amt_trust_check_radar_la.Operations.Report.{Report, report_of, aggregate_day}
use amt_trust_check_radar_la.Operations.Conserved.{Reported, aggregate_day-Reported}
use amt_trust_check_radar_la.Operations.Balance.{change_at-all, if-keeps}

-- what event.schema.json demands of the price of a terminal fact
pub record Priced (t : Terminal) : Type 0 where
  pub one_check : t.accounting_state ≡ charged → t.charged_checks ≡ 1
  pub for_a_result : t.accounting_state ≡ charged → t.processing_outcome ≡ complete

abbrev PricedEvent : Event → Type 0
PricedEvent (check_accepted a) = Unit
PricedEvent (check_terminal t) = Priced t
PricedEvent (attempt_started s) = Unit
PricedEvent (attempt_finished f) = Unit

abbrev pub AllPriced : List (Option Event) → Type 0
AllPriced [] = Unit
AllPriced (none ∷ events) = AllPriced events
AllPriced (some e ∷ events) = PricedEvent e × AllPriced events

abbrev PricedTerminal : Option Terminal → Type 0
PricedTerminal none = Unit
PricedTerminal (some t) = Priced t

abbrev PricedChecks : List Check → Type 0
PricedChecks [] = Unit
PricedChecks (c ∷ checks) = PricedTerminal c.terminal × PricedChecks checks

abbrev Keeps : (Check → Outcome Fault Check) → Type 0
Keeps write =
    (c : Check) → PricedTerminal c.terminal → Ensures (λ e. PricedTerminal e.terminal) (write c)

with_entry-Priced :
    (ref : String) (write : Check → Outcome Fault Check) (checks : List Check)
    → Keeps write
    → PricedChecks checks
    → Ensures PricedChecks (with_entry (λ c. c.ref) new_check ref write checks)
unfolding with_entry
with_entry-Priced ref write [] keeps h =
    Ensures-bind (write (new_check ref)) _
      λ c e. Ensures-ok _ ((keeps (new_check ref) tt).at c e, tt)
with_entry-Priced ref write (c ∷ checks) keeps h =
    elim (str_eq c.ref ref)
      as (λ b. Ensures PricedChecks (
        if b
        then (write c >>= (λ entry. ok (entry ∷ checks)))
        else (with_entry (λ x. x.ref) new_check ref write checks >>= (λ rest. ok (c ∷ rest))))) [
          | true ↦ Ensures-bind (write c) _ λ e w. Ensures-ok _ ((keeps c h.0).at e w, h.1)
          | false ↦
              Ensures-bind (with_entry (λ x. x.ref) new_check ref write checks) _ λ rest w.
                Ensures-ok _ (h.0, (with_entry-Priced ref write checks keeps h.1).at rest w)
        ]

put_accepted-Keeps : (a : Accepted) → Keeps (put_accepted a)
put_accepted-Keeps a c h = Ensures-bind (put_unique _ c.accepted a) _ λ v e. Ensures-ok _ h

put_unique-some :
    (t : Terminal) (o : Option Terminal)
    → Ensures (λ (v : Option Terminal). v ≡ some t) (put_unique same_terminal o t)
unfolding put_unique
put_unique-some t none = Ensures-ok _ refl
put_unique-some t (some old) = Ensures-raise_if _ _ _ λ _. Ensures-ok _ refl

put_terminal-Keeps : (t : Terminal) → Priced t → Keeps (put_terminal t)
put_terminal-Keeps t p c h =
    Ensures-bind (put_unique same_terminal c.terminal t) _
      λ v e. Ensures-ok _ (subst PricedTerminal (sym ((put_unique-some t c.terminal).at v e)) p)

abbrev PricedBatch : Batch → Type 0
PricedBatch b = PricedChecks b.checks

store-Priced :
    (e : Event) (b : Batch) → PricedEvent e → PricedBatch b → Ensures PricedBatch (store e b)
unfolding store
store-Priced (check_accepted a) b p h =
    Ensures-bind
      (with_entry (λ c. c.ref) new_check a.head.logical_check_ref (put_accepted a) b.checks) _
      λ checks e. Ensures-ok _ (
        (with_entry-Priced a.head.logical_check_ref (put_accepted a) b.checks (put_accepted-Keeps a)
            h).at
          checks e)
store-Priced (check_terminal t) b p h =
    Ensures-bind
      (with_entry (λ c. c.ref) new_check t.head.logical_check_ref (put_terminal t) b.checks) _
      λ checks e. Ensures-ok _ (
        (with_entry-Priced t.head.logical_check_ref (put_terminal t) b.checks
            (put_terminal-Keeps t p) h).at
          checks e)
store-Priced (attempt_started s) b p h =
    Ensures-bind
      (with_entry (λ t. t.ref) new_tried s.attempt.attempt_ref (put_started s) b.attempts) _
      λ _ _. Ensures-ok _ h
store-Priced (attempt_finished f) b p h =
    Ensures-bind
      (with_entry (λ t. t.ref) new_tried f.attempt.attempt_ref (put_finished f) b.attempts) _
      λ _ _. Ensures-ok _ h

place-Priced :
    (o : Option Event) (e : Event) (b : Batch)
    → PricedEvent e
    → PricedBatch b
    → Ensures PricedBatch (place o e b)
unfolding place
place-Priced none e b p h =
    Ensures-bind (store e b) _ λ c w. Ensures-ok _ ((store-Priced e b p h).at c w)
place-Priced (some old) e b p h = Ensures-raise_if _ _ _ λ _. Ensures-ok _ h

take_event-Priced :
    (environment : String) (as_of : ℕ) (e : Event) (b : Batch)
    → PricedEvent e
    → PricedBatch b
    → Ensures PricedBatch (take_event environment as_of (some e) b)
unfolding take_event
take_event-Priced environment as_of e b p h = Ensures-require (some e) _ _ λ f same.
    Ensures-raise_if _ _ _ λ _.
      Ensures-raise_if _ _ _
        λ _. place-Priced (find_event (head_of f).event_id b.ids) f b (subst PricedEvent (cc) p) h

refused :
    (environment : String) (as_of : ℕ) (b c : Batch)
    → take_event environment as_of none b ≡ ok c
    → ⊥
unfolding take_event ◌>>=◌
refused environment as_of b c h = cc

gather-Priced :
    (environment : String) (as_of : ℕ) (events : List (Option Event)) (b : Batch)
    → AllPriced events
    → PricedBatch b
    → Ensures PricedBatch (gather environment as_of events b)
unfolding gather
gather-Priced environment as_of [] b p h = Ensures-ok _ h
gather-Priced environment as_of (none ∷ events) b p h =
    Ensures-bind (take_event environment as_of none b) _
      λ c w. absurd (refused environment as_of b c w)
gather-Priced environment as_of (some e ∷ events) b p h =
    Ensures-bind (take_event environment as_of (some e) b) _ λ c w.
      gather-Priced environment as_of events c p.1
        ((take_event-Priced environment as_of e b p.0 h).at c w)

-- the checks of a class of access, told apart by their price
pub record Charges (c : AccessCount) : Type 0 where
  pub all_told : c.accepted ≡ c.settlement_unknown + c.deducted + c.no_deduction
  pub for_results : c.deducted ≤ c.complete_checks

class_after-Charges :
    (t : Option Terminal)
    → PricedTerminal t
    → (c : AccessCount) → Charges c
    → Charges (class_after t c)
unfolding class_after
class_after-Charges none p c h = record {
  all_told = omega (arith, h.all_told);
  for_results = h.for_results;
}
class_after-Charges (some t) p c h = record {
  all_told = ground (arith, p.one_check, h.all_told);
  for_results = ground (arith, p.one_check, p.for_a_result, h.for_results);
}

abbrev EachCharged : CheckTally → Type 0
EachCharged t = (c : AccessClass) → Charges (t.classes c)

counted_check-Charged :
    (a : Accepted) (t : Option Terminal) (tally : CheckTally)
    → PricedTerminal t
    → EachCharged tally
    → EachCharged (counted_check a t tally)
unfolding counted_check
counted_check-Charged a t tally p h =
    change_at-all Charges same_class a.access_class (class_after t) tally.classes
      (class_after-Charges t p) h

take_accepted-Charged :
    (d : Day) (a : Option Accepted) (t : Option Terminal) (tally : CheckTally)
    → PricedTerminal t
    → EachCharged tally
    → Ensures EachCharged (take_accepted d a t tally)
take_accepted-Charged d none t tally p h = Ensures-ok _ h
take_accepted-Charged d (some a) t tally p h = Ensures-raise_if _ _ _ λ _.
    Ensures-bind (settles a t) _ λ _ _. Ensures-ok _ (
      if-keeps EachCharged (in_day d a.head.event_time) (counted_check a t tally) tally
        (counted_check-Charged a t tally p h) h)

count_checks-Charged :
    (d : Day) (checks : List Check) (tally : CheckTally)
    → PricedChecks checks
    → EachCharged tally
    → Ensures EachCharged (count_checks d checks tally)
unfolding count_checks take_check
count_checks-Charged d [] tally p h = Ensures-ok _ h
count_checks-Charged d (c ∷ checks) tally p h = Ensures-bind (take_check d c tally) _ λ taken e.
    count_checks-Charged d checks taken p.1
      ((take_accepted-Charged d c.accepted c.terminal tally p.0 h).at taken e)

-- Where every terminal fact has the price that the schema demands, the accepted checks of each class
-- of access are those whose settlement is unknown, those deducted and those without a deduction, and
-- no more are deducted than are complete.
pub aggregate_day-Charges :
    (day_bounds : String → Option (ℕ × ℕ)) (events : List (Option Event))
    (snapshots : List (Option Rejection)) (local_day environment : String) (as_of : ℕ)
    (source_scope : Option Value) (r : Report)
    → AllPriced events
    → aggregate_day day_bounds events snapshots local_day environment as_of source_scope ≡ ok r
    → (c : AccessClass) → Charges (r.by_access_class c)
unfolding report_of
aggregate_day-Charges day_bounds events snapshots local_day environment as_of source_scope r p h =
    let q : Reported day_bounds events snapshots local_day environment as_of r =
      aggregate_day-Reported day_bounds events snapshots local_day environment as_of source_scope r
        h in
    let c = q.calculated in
    let d : Day = record { start = q.bounds.0; finish = q.bounds.1; as_of = as_of } in
    let priced : PricedChecks c.batch.checks =
      (gather-Priced environment as_of events empty_batch p tt).at c.batch c.gathered in
    subst (λ (x : Report). (k : AccessClass) → Charges (x.by_access_class k)) c.reported
      ((count_checks-Charged d c.batch.checks no_checks priced
          (λ k. record { all_told = omega arith; for_results = omega arith })).at
        c.checks c.checks_counted)

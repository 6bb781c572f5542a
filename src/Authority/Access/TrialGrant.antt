-- ===== src/Authority/Access/TrialGrant.antt =====
-- The rows that the activation of a trial writes admit a check at once.
use amt_trust_check_radar_la.Base.{
  List, [], ◌∷◌, ◌++◌, none, subst, eq_refl, ok-injective, bind-inverse, raise_if-inverse, ℕ, suc,
  ◌+◌, String, true, false, not, Option, some, ◌≡◌, refl, sym, ap, ◌∙◌, ok, bind-ok, require-some,
  raise_if-false, ◌&◌, ◌>>=◌, arith,
}
use amt_trust_check_radar_la.Python.{
  lookup, Dict, dict, put, get-put, natural, integral, matches, name_char,
}
use amt_trust_check_radar_la.Authority.Policy.{trial_seconds, trial_completed_checks}
use amt_trust_check_radar_la.Authority.Usage.Row.{number}
use amt_trust_check_radar_la.Authority.Usage.Actions.{Read}
use amt_trust_check_radar_la.Authority.Grant.{
  trial, grant, metered, allowance, is_allowance_row, access_basis, check_basis, is_trial_window,
}
use amt_trust_check_radar_la.Authority.Access.Effective.{
  effective, next_revision, revision_of, inactive_row, source_of, in_force_now, source_in_force,
  with_window, with_period, with_activation, window_row, period_row, activation_row,
}
use amt_trust_check_radar_la.Authority.Access.EffectiveFacts.{access_basis-effective}
use amt_trust_check_radar_la.Authority.Access.Mutation.{
  trial_source, period, mutation_items, trial_mutation, history_row, other_checks, fence,
}
use amt_trust_check_radar_la.Dynamo.{Condition, not_exists, Action, put_item, always, key_of}
use amt_trust_check_radar_la.Dynamo.Puts.{Stored, Stored-left, Stored-right}
use amt_trust_check_radar_la.Authority.Access.Writer.{
  Access, access_key, history_key, deletion_partitions,
}
use amt_trust_check_radar_la.Authority.Session.Store.{Db, Env, account_conditions}

module _ (get_item : Read) (now : ℕ) (pk period_id : String) (old : Option Dict) (sources : Dict)
    (revision : ℕ) where
  -- the sources of the activation
  abbrev with_trial : Dict
  with_trial = put "trial" (dict (trial_source period_id (suc revision) now)) sources

  source-trial : source_of "trial" with_trial ≡ some (trial_source period_id (suc revision) now)
  unfolding trial_source
  source-trial = simp get-put

  source-paid : source_of "paid" with_trial ≡ source_of "paid" sources
  source-paid = simp get-put

  source-free : source_of "complimentary" with_trial ≡ source_of "complimentary" sources
  source-free = simp get-put

  trial_in_force : in_force_now false (some (trial_source period_id (suc revision) now)) now ≡ true
  unfolding trial_source source_in_force integral
  trial_in_force = ground arith

  module _ (free : in_force_now true (source_of "complimentary" sources) now ≡ false)
      (bought : in_force_now false (source_of "paid" sources) now ≡ false) where
    -- the access row of the activation
    abbrev trial_row : Dict
    trial_row = with_activation (trial_source period_id (suc revision) now) (
        with_period (trial_source period_id (suc revision) now) (
          with_window "trial" (trial_source period_id (suc revision) now)
            (inactive_row pk old with_trial)))

    free' : in_force_now true (source_of "complimentary" with_trial) now ≡ false
    free' = ap (λ x. in_force_now true x now) source-free ∙ free

    bought' : in_force_now false (source_of "paid" with_trial) now ≡ false
    bought' = ap (λ x. in_force_now false x now) source-paid ∙ bought

    tried' : in_force_now false (source_of "trial" with_trial) now ≡ true
    tried' = ap (λ x. in_force_now false x now) source-trial ∙ trial_in_force

    row-trial : effective now pk old with_trial ≡ trial_row
    unfolding effective
    row-trial =
        rw (free', bought', tried')
          (ap
            (λ x.
              activation_row x
                (period_row x (window_row "trial" x (inactive_row pk old with_trial))))
            source-trial)

    access-trial : access_basis (some trial_row) now ≡ ok trial
    access-trial =
        ap (λ x. access_basis (some x) now) (sym row-trial)
        ∙ access_basis-effective now pk old with_trial
        ∙ rw (free', bought', tried') refl

    abbrev trial_period : Dict
    trial_period =
        period pk period_id (suc revision) now (now + trial_seconds) trial_completed_checks

    allowance-trial :
        allowance trial (suc revision) (some trial_period) now
        ≡ ok (record { row = trial_period; used_checks = 0; reserved_checks = 0 })
    unfolding allowance is_allowance_row period natural integral ◌>>=◌
    allowance-trial = ground arith

    check-trial : check_basis trial get_item trial_row trial_period now ≡ ok tt
    unfolding check_basis is_trial_window inactive_row trial_source period natural integral ◌>>=◌
    check-trial = ground arith

    metered-trial :
        matches "" name_char 1 64 period_id ≡ true
        → get_item (record { pk = pk; sk = "PERIOD#" & period_id }) ≡ some trial_period
        → metered get_item pk trial trial_row now false
          ≡ ok (record {
            row = trial_row;
            basis = trial;
            period = some (record { row = trial_period; used_checks = 0; reserved_checks = 0 });
          })
    unfolding metered trial_source inactive_row natural integral
    metered-trial named stored =
        require-some _ _ refl
        ∙ raise_if-false _ _ (ground arith)
        ∙ require-some _ _ refl
        ∙ raise_if-false _ _ (ap not named)
        ∙ bind-ok _ (ap (λ x. allowance trial (suc revision) x now) stored ∙ allowance-trial)
        ∙ bind-ok _ check-trial
        ∙ raise_if-false _ _ refl

rows-grant :
    (get_item : Read) (now : ℕ) (pk period_id : String) (old : Option Dict) (sources : Dict)
    (revision : ℕ)
    → in_force_now true (source_of "complimentary" sources) now ≡ false
    → in_force_now false (source_of "paid" sources) now ≡ false
    → matches "" name_char 1 64 period_id ≡ true
    → get_item (record { pk = pk; sk = "ACCESS" })
      ≡ some (
          effective now pk old
            (put "trial" (dict (trial_source period_id (suc revision) now)) sources))
    → get_item (record { pk = pk; sk = "PERIOD#" & period_id })
      ≡ some (period pk period_id (suc revision) now (now + trial_seconds) trial_completed_checks)
    → grant get_item pk now false
      ≡ ok (record {
        row =
            effective now pk old
              (put "trial" (dict (trial_source period_id (suc revision) now)) sources);
        basis = trial;
        period = some (record {
          row = period pk period_id (suc revision) now (now + trial_seconds) trial_completed_checks;
          used_checks = 0;
          reserved_checks = 0;
        });
      })
unfolding grant
rows-grant get_item now pk period_id old sources revision free bought named access stored =
    let made = row-trial get_item now pk period_id old sources revision free bought in
    let found = access ∙ ap some made in
    bind-ok _ (
      ap (λ x. access_basis x now) found
      ∙ access-trial get_item now pk period_id old sources revision free bought)
    ∙ require-some _ _ found
    ∙ metered-trial get_item now pk period_id old sources revision free bought named stored
    ∙ ap
        (λ x. ok (record {
          row = x;
          basis = trial;
          period = some (record {
            row =
                period pk period_id (suc revision) now (now + trial_seconds) trial_completed_checks;
            used_checks = 0;
            reserved_checks = 0;
          });
        }))
        (sym made)

-- an access row that is computed from sources names its own key
effective-key :
    (table : String) (get_item : Read) (now : ℕ) (pk period_id : String) (old : Option Dict)
    (sources : Dict) (revision : ℕ)
    → in_force_now true (source_of "complimentary" sources) now ≡ false
    → in_force_now false (source_of "paid" sources) now ≡ false
    → key_of (
        put_item table
          (effective now pk old
            (put "trial" (dict (trial_source period_id (suc revision) now)) sources))
          always)
      ≡ record { pk = pk; sk = "ACCESS" }
unfolding inactive_row trial_source
effective-key table get_item now pk period_id old sources revision free bought =
    ap (λ x. key_of (put_item table x always))
      (row-trial get_item now pk period_id old sources revision free bought)
    ∙ refl

-- the two rows that matter of a transaction that holds a trial's activation
put-rows :
    (table : String) (read : Read) (conditions checks devices others : List Action)
    (history allowed row audit : Dict) (c1 c2 c3 c4 : Condition) {items : List Action}
    → (conditions
        ++ checks
        ++ (devices ++ (put_item table history c1 ∷ put_item table allowed c2 ∷ []) ++ others)
        ++ (put_item table row c3 ∷ put_item table audit c4 ∷ []))
      ≡ items
    → Stored table read items
    → (read (key_of (put_item table row always)) ≡ some row)
      × (read (key_of (put_item table allowed always)) ≡ some allowed)
put-rows table read conditions checks devices others history allowed row audit c1 c2 c3 c4 same
      stored =
    let ends = put_item table row c3 ∷ put_item table audit c4 ∷ [] in
    let made = put_item table history c1 ∷ put_item table allowed c2 ∷ [] in
    let all = subst (Stored table read) (sym same) stored in
    let before = conditions ++ checks ++ (devices ++ made ++ others) in
    let last : Stored table read ends = Stored-right table read before ends all in
    let first = Stored-left table read before ends all in
    let extras = Stored-right table read (conditions ++ checks) (devices ++ made ++ others) first in
    let two = Stored-left table read (devices ++ made) others extras in
    let puts : Stored table read made = Stored-right table read devices made two in
    (last.0 (eq_refl table), puts.1.0 (eq_refl table))

natural-number : (n : ℕ) → natural (number n) ≡ some n
unfolding natural integral
natural-number n = refl

-- the answer of `_grant` to a trial that nothing was charged to
pub record Fresh (get_item : Read) (pk : String) (now : ℕ) : Type 0 where
  pub row : Dict
  pub period_row : Dict
  pub granted :
      grant get_item pk now false
      ≡ ok (record {
        row = row;
        basis = trial;
        period = some (record { row = period_row; used_checks = 0; reserved_checks = 0 });
      })
  pub ten_checks : natural (lookup "limit" period_row) ≡ some 10
  pub seven_days : natural (lookup "endEpoch" period_row) ≡ some (now + 604800)

-- the rows of an activation with a revision, and the grant that follows
abbrev Grants : Read → ℕ → String → String → Option Dict → Dict → ℕ → Type 0
Grants get_item now pk period_id old sources revision =
    let row =
      effective now pk old (put "trial" (dict (trial_source period_id revision now)) sources) in
    let allowed = period pk period_id revision now (now + trial_seconds) trial_completed_checks in
    get_item (key_of (put_item "" row always)) ≡ some row
    → get_item (key_of (put_item "" allowed always)) ≡ some allowed
    → Fresh get_item pk now

next-suc : (old : Option Dict) → (n : ℕ) × (next_revision old ≡ suc n)
next-suc none = (0, refl)
next-suc (some old) = (revision_of (natural (lookup "revision" old)), omega arith)

suc-Grants :
    (get_item : Read) (now : ℕ) (pk period_id : String) (old : Option Dict) (sources : Dict)
    (revision : ℕ)
    → in_force_now true (source_of "complimentary" sources) now ≡ false
    → in_force_now false (source_of "paid" sources) now ≡ false
    → matches "" name_char 1 64 period_id ≡ true
    → Grants get_item now pk period_id old sources (suc revision)
unfolding period
suc-Grants get_item now pk period_id old sources revision free bought named access stored =
    let key = effective-key "" get_item now pk period_id old sources revision free bought in
    record {
      row = _;
      period_row = _;
      granted =
          rows-grant get_item now pk period_id old sources revision free bought named
            (ap get_item (sym key) ∙ access) stored;
      ten_checks = natural-number 10;
      seven_days = natural-number (now + trial_seconds);
    }

-- Where neither complimentary nor paid access is in force, and the table holds what the transaction of a
-- trial's activation puts, `_grant` finds the trial with an unused period of ten checks and seven days.
pub trial-grant :
    (e : Env) (db : Db) (account : String) (a : Access) (devices : List Action)
    (others : List String) (period_id : String) (now : ℕ) (audit : Dict) (items : List Action)
    (get_item : Read)
    → in_force_now true (source_of "complimentary" a.sources) now ≡ false
    → in_force_now false (source_of "paid" a.sources) now ≡ false
    → matches "" name_char 1 64 period_id ≡ true
    → mutation_items e db account a
        (trial_mutation e account a devices others period_id now)
        (effective now a.pk a.row (trial_mutation e account a devices others period_id now).sources)
        audit
      ≡ ok items
    → Stored e.settings.authority_table get_item items
    → Fresh get_item a.pk now
unfolding trial_mutation mutation_items
trial-grant e db account a devices others period_id now audit items get_item free bought named made
      stored =
    let table = e.settings.authority_table in
    let (conditions, hc, h1) = bind-inverse (account_conditions e db account) _ made in
    let (ids, hi, h2) = bind-inverse (deletion_partitions e account) _ h1 in
    let (few, h3) = raise_if-inverse _ _ _ h2 in
    let (access, allowed) =
      put-rows table get_item conditions (other_checks table a.pk access_key ids) devices
        (other_checks table a.pk history_key others) (history_row a.pk now) _ _ audit
        (not_exists "PK") (not_exists "PK") (fence a.row) (not_exists "PK") (ok-injective h3)
        stored in
    let (n, next) = next-suc a.row in
    subst (Grants get_item now a.pk period_id a.row a.sources) (sym next)
      (suc-Grants get_item now a.pk period_id a.row a.sources n free bought named) access allowed

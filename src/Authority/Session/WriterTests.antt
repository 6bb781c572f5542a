-- ===== src/Authority/Session/WriterTests.antt =====
-- A first access row and the activation of a trial, on which the theorems of the writer are applied.
use amt_trust_check_radar_la.Base.{
  true, false, none, some, List, [], ◌≡◌, refl, str_eq, if◌then◌else◌, ok, ◌>>=◌,
}
use amt_trust_check_radar_la.Python.{
  null, text, dict, Dict, end, put, natural, integral, value_eq, same_keys, matches,
}
use amt_trust_check_radar_la.Dynamo.{Action}
use amt_trust_check_radar_la.Authority.Usage.Actions.{Read}
use amt_trust_check_radar_la.Authority.Access.Effective.{effective, source_in_force, inactive_row}
use amt_trust_check_radar_la.Authority.Access.Writer.{Access, deletion_partitions}
use amt_trust_check_radar_la.Authority.Access.Mutation.{
  Committed, Mutation, audit_row, mutate, mutation_items, after_mutation, recorded, reconciled,
  trial_source, period, history_row, trial_mutation,
}
use amt_trust_check_radar_la.Authority.Access.MutationFacts.{mutate-once}
use amt_trust_check_radar_la.Authority.Access.TrialGrant.{Fresh, trial-grant}
use amt_trust_check_radar_la.Authority.Session.Store.{
  Commit, mac, partition, account_conditions, verified_inventory, is_inventory, inventory_condition,
}
use amt_trust_check_radar_la.Authority.Session.Tests.{env, digest, part, tables, items_of}

abbrev no_access : Access
no_access = record { pk = part; row = none; sources = end }

-- an operation that leaves no source in force
abbrev close_all : Mutation
close_all = record {
  operation_id = "close-1";
  details = "{}";
  action = "CLOSE";
  sources = end;
  extras = [];
}

abbrev closing_audit : Dict
unfolding audit_row effective inactive_row
closing_audit = audit_row part digest digest "CLOSE" (effective 2000 part none end) 2000

abbrev stored : Commit
unfolding closing_audit audit_row effective inactive_row
stored db items = (true, tables (some closing_audit))

abbrev refuses_all : Commit
refuses_all db items = (false, db)

abbrev closed : Committed
closed = record { revision = 1; state = text "INACTIVE"; basis = null }

mutate-once_example :
    mutate env refuses_all (tables (some closing_audit)) "user1" no_access close_all 2500
    ≡ ok (closed, tables (some closing_audit))
unfolding stored closing_audit mutate mutation_items after_mutation recorded reconciled audit_row
    effective inactive_row deletion_partitions mac partition account_conditions verified_inventory
    inventory_condition is_inventory value_eq same_keys matches natural integral ◌>>=◌
mutate-once_example =
    mutate-once env stored refuses_all (tables none) (tables (some closing_audit)) "user1" no_access
      no_access close_all digest digest 2000 2500 closed refl refl refl refl refl refl

abbrev activated_row : Dict
unfolding effective inactive_row trial_source source_in_force integral
activated_row = effective 2000 part none (put "trial" (dict (trial_source "trial-1" 1 2000)) end)

abbrev activated_period : Dict
unfolding period
activated_period = period part "trial-1" 1 2000 606800 10

abbrev trial_history_row : Dict
unfolding history_row
trial_history_row = history_row part 2000

abbrev activating : Mutation
unfolding trial_mutation trial_source history_row period
activating = trial_mutation env "user1" no_access [] [] "trial-1" 2000

abbrev trial_audit : Dict
unfolding audit_row activated_row effective inactive_row trial_source source_in_force integral
trial_audit = audit_row part digest digest "ACTIVATE_TRIAL" activated_row 2000

-- the authority table after the activation
abbrev activated : Read
unfolding activated_row activated_period effective inactive_row trial_source source_in_force
    integral period trial_history_row history_row trial_audit audit_row
activated k =
    if str_eq k.sk "ACCESS"
    then some activated_row
    else if str_eq k.sk "PERIOD#trial-1"
    then some activated_period
    else if str_eq k.sk "TRIAL_HISTORY"
    then some trial_history_row
    else some trial_audit

abbrev activation_items : List Action
unfolding activating activated_row trial_audit trial_mutation trial_source history_row period
    mutation_items effective inactive_row source_in_force integral audit_row deletion_partitions mac
    partition account_conditions verified_inventory inventory_condition is_inventory value_eq
    same_keys matches natural ◌>>=◌
activation_items =
    items_of
      (mutation_items env (tables none) "user1" no_access activating activated_row trial_audit)

trial-grant_example : Fresh activated part 2000
unfolding activated activation_items activating activated_row activated_period trial_history_row
    trial_audit trial_mutation trial_source history_row period mutation_items effective inactive_row
    source_in_force integral audit_row deletion_partitions mac partition account_conditions
    verified_inventory inventory_condition is_inventory value_eq same_keys matches natural ◌>>=◌
trial-grant_example =
    trial-grant env (tables none) "user1" no_access [] [] "trial-1" 2000 trial_audit
      activation_items activated refl refl refl refl
      (λ h. refl, (λ h. refl, (λ h. refl, (λ h. refl, tt))))

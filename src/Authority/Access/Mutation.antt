-- ===== src/Authority/Access/Mutation.antt =====
-- `EntitlementWriter._commit` and `activate_trial`: a mutation, its audit row, and its replay. No
-- operator acts, no request digest is recorded, and the access row is fenced by its revision.
use amt_trust_check_radar_la.Base.{
  ℕ, ◌+◌, String, Bool, true, false, ◌&&◌, ◌||◌, not, Option, none, some, List, [], ◌∷◌, ◌++◌, ltb,
  length, str_eq, if◌then◌else◌, ◌&◌, ok, err, ◌>>=◌, ◌>>◌, raise_if, require,
}
use amt_trust_check_radar_la.Python.{
  Value, text, dict, Dict, end, entry, get, put, lookup, natural, integral, is_text, matches,
  name_char, take,
}
use amt_trust_check_radar_la.Dynamo.{
  Key, Condition, equals, both, not_exists, Action, condition_check, put_item,
}
use amt_trust_check_radar_la.Authority.Policy.{
  Result, owner_policy, trial_completed_checks, trial_seconds, authority_operation_conflict,
  writer_input_rejected, uncaught, trial_retention_approval_required, trial_not_eligible,
  transaction_uncertain, purchase_usage_reconciliation_required,
}
use amt_trust_check_radar_la.Authority.Usage.Row.{number}
use amt_trust_check_radar_la.Authority.Grant.{ends_after}
use amt_trust_check_radar_la.Authority.Access.Effective.{effective, next_revision, is_none}
use amt_trust_check_radar_la.Authority.Access.Writer.{
  Access, access_key, history_key, deletion_partitions, read_access, trial_history,
}
use amt_trust_check_radar_la.Authority.Session.Store.{
  Db, Env, Commit, mac, binding_key, device_key, device, assert_account, account_conditions,
}

-- what a mutation answers
pub record Committed : Type 0 where
  pub revision : ℕ
  pub state : Value
  pub basis : Value

-- a mutation: its operation, and what the caller wants written
pub record Mutation : Type 0 where
  pub operation_id : String
  pub details : String
  pub action : String
  pub sources : Dict
  pub extras : List Action

abbrev pub operation_key : String → String → Key
operation_key pk operation = record { pk = pk; sk = "AUTHORITY_OP#" & operation }

-- `receipt()`: the answer of the operation, if it was recorded; its digest must be the same
unfoldable pub recorded : String → Dict → Result Committed
recorded digest found = do
  raise_if (not (is_text digest (lookup "mutationDigest" found))) authority_operation_conflict
  revision ← require (natural (lookup "revision" found)) uncaught
  state ← require (get "effectiveState" found) uncaught
  ok (record { revision = revision; state = state; basis = lookup "effectiveBasis" found })

unfoldable pub audit_row : String → String → String → String → Dict → ℕ → Dict
audit_row pk operation digest action row now = entry "PK" (text pk) (
    entry "SK" (text ("AUTHORITY_OP#" & operation)) (
      entry "recordType" (text "V1_AUTHORITY_AUDIT") (
        entry "policyVersion" (text owner_policy) (
          entry "mutationDigest" (text digest) (
            entry "action" (text action) (
              entry "recordedAtEpoch" (number now) (
                entry "revision" (lookup "revision" row) (
                  entry "effectiveState" (lookup "state" row)
                    (entry "effectiveBasis" (lookup "basis" row) end)))))))))

-- the row is as it was read, by its revision
abbrev pub fence : Option Dict → Condition
fence none = not_exists "PK"
fence (some old) = equals "revision" (lookup "revision" old)

-- no other partition may have an access row
abbrev pub other_checks : String → String → (String → Key) → List String → List Action
other_checks table pk key [] = []
other_checks table pk key (p ∷ ps) =
    let more = other_checks table pk key ps in
    if str_eq p pk then more else condition_check table (key p) (not_exists "PK") ∷ more

-- the transaction of a mutation
unfoldable pub mutation_items :
    Env → Db → String → Access → Mutation → Dict → Dict → Result (List Action)
mutation_items e db account a m row audit = do
  conditions ← account_conditions e db account
  others ← deletion_partitions e account
  let table = e.settings.authority_table
  let items =
      conditions
      ++ other_checks table a.pk access_key others
      ++ m.extras
      ++ (put_item table row (fence a.row) ∷ put_item table audit (not_exists "PK") ∷ [])
  raise_if (ltb 100 (length items)) purchase_usage_reconciliation_required
  ok items

abbrev pub answer_of : Dict → Result Committed
answer_of row = do
  revision ← require (natural (lookup "revision" row)) uncaught
  ok (record { revision = revision; state = lookup "state" row; basis = lookup "basis" row })

-- A transaction that did not return is reconciled with its exact operation.
unfoldable pub reconciled : String → Option Dict → Result Committed
reconciled digest none = err transaction_uncertain
reconciled digest (some found) = recorded digest found

unfoldable pub after_mutation : Key → String → Dict → Bool × Db → Result (Committed × Db)
after_mutation op digest row (true, db) = do c ← answer_of row; ok (c, db)
after_mutation op digest row (false, db) = do c ← reconciled digest (db.authority op); ok (c, db)

abbrev pub mutate_new :
    Env
    → Commit
    → Db
    → String
    → Access
    → Mutation
    → String
    → String
    → ℕ
    → Option Dict
    → Result (Committed × Db)
mutate_new e commit db account a m operation digest now (some found) = do
  c ← recorded digest found
  ok (c, db)
mutate_new e commit db account a m operation digest now none = do
  let row = effective now a.pk a.row m.sources
  let audit = audit_row a.pk operation digest m.action row now
  items ← mutation_items e db account a m row audit
  after_mutation (operation_key a.pk operation) digest row (commit db items)

-- `_commit`
unfoldable pub mutate : Env → Commit → Db → String → Access → Mutation → ℕ → Result (Committed × Db)
mutate e commit db account a m now = do
  raise_if (not (matches "" name_char 1 64 m.operation_id)) writer_input_rejected
  operation ← mac e e.settings.active_key_id "authority-operation" m.operation_id
  digest ← mac e e.settings.active_key_id "authority-mutation" m.details
  mutate_new e commit db account a m operation digest now
      (db.authority (operation_key a.pk operation))

-- `_device_conditions`
unfoldable pub device_conditions : Env → Db → Value → String → Result (List Action)
device_conditions e db headers account = do
  d ← device db headers account
  ok (
      condition_check e.settings.devices_table (binding_key account) (
        both (equals "recordType" (text "ACTIVE_BINDING_POINTER")) (
          both (equals "stateVersion" (number d.version))
            (equals "bindingFingerprint" (text d.fingerprint))))
      ∷ condition_check e.settings.devices_table (device_key account d.fingerprint) (
          both (equals "status" (text "ACTIVE")) (
            both (equals "accountId" (text account))
              (equals "bindingFingerprint" (text d.fingerprint))))
      ∷ [])

-- `_period`
unfoldable pub period : String → String → ℕ → ℕ → ℕ → ℕ → Dict
period pk period_id revision start finish limit = entry "PK" (text pk) (
    entry "SK" (text ("PERIOD#" & period_id)) (
      entry "recordType" (text "V1_ALLOWANCE_PERIOD") (
        entry "policyVersion" (text owner_policy) (
          entry "grantRevision" (number revision) (
            entry "limit" (number limit) (
              entry "startEpoch" (number start) (
                entry "endEpoch" (number finish)
                  (entry "usedChecks" (number 0) (entry "reservedChecks" (number 0) end)))))))))

unfoldable pub trial_source : String → ℕ → ℕ → Dict
trial_source period_id revision now = entry "state" (text "ACTIVE") (
    entry "validFromEpoch" (number now) (
      entry "validUntilEpoch" (number (now + trial_seconds))
        (entry "periodId" (text period_id) (entry "periodRevision" (number revision) end))))

unfoldable pub history_row : String → ℕ → Dict
history_row pk now = entry "PK" (text pk) (
    entry "SK" (text "TRIAL_HISTORY") (
      entry "recordType" (text "V1_TRIAL_ELIGIBILITY") (
        entry "policyVersion" (text owner_policy)
          (entry "activationKind" (text "explicit") (entry "activatedAtEpoch" (number now) end)))))

abbrev source_open : Value → ℕ → Bool
source_open (dict s) now =
    is_text "ACTIVE" (lookup "state" s)
    && (is_none (lookup "validUntilEpoch" s)
        || ends_after (integral (lookup "validUntilEpoch" s)) now)
source_open _ now = false

-- Some source is active and has not ended.
abbrev any_open : Dict → ℕ → Bool
any_open end now = false
any_open (entry k s rest) now = source_open s now || any_open rest now

-- `'trial-' + mac[:40]`
abbrev trial_id : String → String
trial_id m = "trial-" & take 40 m

unfoldable pub trial_mutation :
    Env → String → Access → List Action → List String → String → ℕ → Mutation
trial_mutation e account a devices others period_id now =
    let table = e.settings.authority_table in
    let revision = next_revision a.row in
    record {
      operation_id = "explicit-trial-activation";
      details = "{\"action\":\"ACTIVATE_TRIAL\",\"actor\":null,\"details\":{}}";
      action = "ACTIVATE_TRIAL";
      sources = put "trial" (dict (trial_source period_id revision now)) a.sources;
      extras =
          devices
          ++ (put_item table (history_row a.pk now) (not_exists "PK")
              ∷ put_item table
                  (period a.pk period_id revision now (now + trial_seconds) trial_completed_checks)
                  (not_exists "PK")
              ∷ [])
          ++ other_checks table a.pk history_key others;
    }

pub record Activation : Type 0 where
  pub activated_at : ℕ
  pub already : Bool

abbrev pub activate_new :
    Env → Commit → Db → String → Access → List Action → ℕ → Option ℕ → Result (Activation × Db)
activate_new e commit db account a devices now (some activated) =
    ok (record { activated_at = activated; already = true }, db)
activate_new e commit db account a devices now none = do
  raise_if (any_open a.sources now) trial_not_eligible
  m ← mac e e.settings.active_key_id "trial-period" account
  others ← deletion_partitions e account
  (answer, after) ←
      mutate e commit db account a (trial_mutation e account a devices others (trial_id m) now) now
  stored ← require (after.authority (history_key a.pk)) transaction_uncertain
  activated ← require (natural (lookup "activatedAtEpoch" stored)) uncaught
  ok (record { activated_at = activated; already = false }, after)

unfoldable pub activate_trial :
    Env → Commit → Db → Bool → Result String → Value → ℕ → Result (Activation × Db)
activate_trial e commit db approved verified headers now = do
  raise_if (not approved) trial_retention_approval_required
  account ← verified
  assert_account db account
  devices ← device_conditions e db headers account
  a ← read_access e db account
  activated ← trial_history e db account a.sources now
  activate_new e commit db account a devices now activated

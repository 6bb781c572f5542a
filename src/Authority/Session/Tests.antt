-- ===== src/Authority/Session/Tests.antt =====
-- An account with a trial and a bound device, on whose check the theorems of Session are applied.
use amt_trust_check_radar_la.Base.{
  ℕ, ◌+◌, String, true, false, Option, none, some, List, [], ◌∷◌, ◌≡◌, refl, str_eq, if◌then◌else◌,
  ok, err, ◌>>=◌,
}
use amt_trust_check_radar_la.Python.{
  pos, negsuc, null, bool, text, dict, Dict, end, entry, put, lookup, natural, integral, value_eq,
  same_keys, matches, pad, pad_hex, split, hex_number, take, lower_is,
}
use amt_trust_check_radar_la.Dynamo.{Key, key_dict, Action, written, changes, change, added}
use amt_trust_check_radar_la.Authority.Policy.{Result, owner_policy}
use amt_trust_check_radar_la.Authority.Usage.Row.{
  number, usage_row, expiry_sort, validate, valid_key, usage_shape, usage_numbers, bounds,
  is_usage_row, expiry_holds, effective_access_end,
}
use amt_trust_check_radar_la.Authority.Usage.Actions.{Read}
use amt_trust_check_radar_la.Authority.Grant.{
  Allowance, trial, grant, metered, allowance, is_allowance_row, check_basis, access_basis,
  basis_of, in_force, is_access_row, is_trial_window,
}
use amt_trust_check_radar_la.Authority.Session.Settings.{
  Settings, settings_valid, deadlines_ordered,
}
use amt_trust_check_radar_la.Authority.Session.Store.{
  Db, Env, Commit, mac, partition, is_active_profile, assert_account, device, is_inventory,
  verified_inventory, account_conditions, authority_conditions,
}
use amt_trust_check_radar_la.Authority.Session.Token.{token_parts, verify_token, Token}
use amt_trust_check_radar_la.Authority.Session.Admit.{
  Request, receipt_row, basis_fields, new_receipt, reservation, preparation_check, admission,
  after_admission, admit, receipt_public, trial_reservation,
}
use amt_trust_check_radar_la.Authority.Session.Settle.{
  Settlement, settle, settle_open, settle_action, operations_due, captured_condition, settlement,
  charge, release, trial_release, inflight_release, retained, owns, in_time, after_settlement,
  paid_release,
}
use amt_trust_check_radar_la.Authority.Session.Reserves.{
  Names, paid_release-Paired, trial_release-trial_reservation,
}
use amt_trust_check_radar_la.Authority.Session.Once.{settle-once}
use amt_trust_check_radar_la.Authority.Session.Charges.{Charges, settlement-Charges}
use amt_trust_check_radar_la.Authority.Tests.{funded_key, funded_row, period, period_key, account}
use amt_trust_check_radar_la.Authority.Usage.Actions.{Period, read, validate_period, is_period_row}
use amt_trust_check_radar_la.Authority.Usage.Counters.{
  local_counter_action, counter_action, global_actions, matching_usage, global_for_period, agrees,
  paired_counter_actions, period_for_receipt, is_paid_receipt,
}
use amt_trust_check_radar_la.Authority.Usage.Pairs.{Paired}
use amt_trust_check_radar_la.Authority.Session.Admitted.{Admitted, admit-Admitted}

abbrev pub digest : String
digest = "0123456789abcdef0123456789abcdef0123456789abcdef0123456789abcdef"

abbrev key_bytes : List ℕ
key_bytes =
    1 ∷ 2 ∷ 3 ∷ 4 ∷ 5 ∷ 6 ∷ 7 ∷ 8 ∷ 1 ∷ 2 ∷ 3 ∷ 4 ∷ 5 ∷ 6 ∷ 7 ∷ 8 ∷ 1 ∷ 2 ∷ 3 ∷ 4 ∷ 5 ∷ 6 ∷ 7 ∷ 8
    ∷ 1 ∷ 2 ∷ 3 ∷ 4 ∷ 5 ∷ 6 ∷ 7 ∷ 8 ∷ []

abbrev pub settings : Settings
settings = record {
  users_table = "users";
  devices_table = "devices";
  deletion_table = "deletions";
  authority_table = "authority";
  cognito_issuer = "issuer";
  cognito_app_client_id = "client";
  cognito_required_scope = "scope";
  policy_version = owner_policy;
  active_key_id = "k1";
  hmac_keys = ("k1", key_bytes) ∷ [];
  operation_validity_seconds = 600;
  worker_settlement_seconds = 120;
  reconciliation_seconds = 3600;
  receipt_retention_seconds = 7200;
  counter_retention_seconds = 90000;
  attempt_window_seconds = 60;
  attempts_per_window = 20;
  max_inflight = 3;
  enabled = true;
  operations_environment = "dev";
}

-- every digest is the same one
abbrev pub env : Env
env = record { settings = settings; hmac = λ k m. digest; sha256 = λ k. digest }

abbrev pub part : String
part = "V1#k1#0123456789abcdef0123456789abcdef0123456789abcdef0123456789abcdef"

-- expires at 4096
abbrev pub check_id : String
check_id = "v1_k1_00001000_0123456789abcdef_0123456789abcdef01234567"

abbrev profile : Dict
profile =
    entry "sub" (text "user1")
      (entry "status" (text "ACTIVE") (entry "ageVerified" (bool true) end))

abbrev pointer : Dict
pointer =
    entry "recordType" (text "ACTIVE_BINDING_POINTER")
      (entry "stateVersion" (number 1) (entry "bindingFingerprint" (text "phone") end))

abbrev binding : Dict
binding =
    entry "accountId" (text "user1")
      (entry "status" (text "ACTIVE") (entry "bindingFingerprint" (text "phone") end))

abbrev inventory : Dict
inventory = entry "PK" (text "V1#CONTROL") (
    entry "SK" (text "HMAC_KEY_INVENTORY") (
      entry "recordType" (text "V1_HMAC_KEY_INVENTORY") (
        entry "schemaVersion" (number 1) (
          entry "revision" (number 1) (
            entry "coverage" (text "VERIFIED_COMPLETE")
              (entry "issuedKeys" (dict (entry "k1" (text digest) end)) end))))))

abbrev access : Dict
access = entry "recordType" (text "V1_ACCESS_AUTHORITY") (
    entry "schemaVersion" (number 1) (
      entry "policyVersion" (text owner_policy) (
        entry "revision" (number 1) (
          entry "state" (text "ACTIVE") (
            entry "basis" (text "trial") (
              entry "validFromEpoch" (number 1000) (
                entry "validUntilEpoch" (number 605800) (
                  entry "periodId" (text "t1") (
                    entry "periodRevision" (number 1) (
                      entry "activationKind" (text "explicit")
                        (entry "activatedAtEpoch" (number 1000) end)))))))))))

abbrev trial_period : Dict
trial_period = entry "SK" (text "PERIOD#t1") (
    entry "recordType" (text "V1_ALLOWANCE_PERIOD") (
      entry "policyVersion" (text owner_policy) (
        entry "grantRevision" (number 1) (
          entry "limit" (number 10) (
            entry "startEpoch" (number 1000) (
              entry "endEpoch" (number 605800)
                (entry "usedChecks" (number 9) (entry "reservedChecks" (number 0) end))))))))

-- the authority table, with the receipt of the check if there is one
abbrev authority : Option Dict → Read
authority receipt k =
    if str_eq k.sk "ACCESS"
    then some access
    else if str_eq k.sk "PERIOD#t1"
    then some trial_period
    else if str_eq k.sk "HMAC_KEY_INVENTORY"
    then some inventory
    else if str_eq k.pk part
    then receipt
    else none

abbrev devices : Read
devices k = if str_eq k.sk "ACTIVE_BINDING" then some pointer else some binding

abbrev pub tables : Option Dict → Db
tables receipt = record {
  users = λ k. some profile;
  devices = devices;
  deletions = λ k. none;
  authority = authority receipt;
}

abbrev pub request : Request
request = record {
  account = ok "user1";
  headers = dict (entry "X-Device-Binding-Fingerprint" (text "phone") end);
  payload = entry "target" (dict (entry "scope" (text "full_url") end)) end;
  digest = λ k. ok digest;
  check_id = check_id;
  client_check_id = none;
  count_attempt = false;
}

abbrev new_row : Dict
unfolding receipt_row pad
new_row =
    receipt_row settings part request digest (text "full_url")
      (record {
        row = access;
        basis = trial;
        period = some (record { row = trial_period; used_checks = 9; reserved_checks = 0 });
      })
      "token" 2000

-- a transaction that returns, after which the receipt is stored
abbrev returns : Commit
unfolding new_row receipt_row pad
returns db items = (true, tables (some new_row))

admit-Admitted_example : Admitted env returns 2000 (receipt_public new_row) (tables (some new_row))
unfolding returns new_row admit admission new_receipt basis_fields reservation preparation_check
    after_admission device assert_account is_active_profile account_conditions authority_conditions
    verified_inventory is_inventory value_eq same_keys mac partition token_parts verify_token split
    hex_number take lower_is pad pad_hex matches natural integral grant metered allowance
    is_allowance_row check_basis access_basis basis_of in_force is_access_row is_trial_window ◌>>=◌
    settings_valid deadlines_ordered receipt_public receipt_row
admit-Admitted_example =
    admit-Admitted env returns (tables none) (tables (some new_row)) request "token" "token" _ 2000
      refl refl

abbrev issued : Token
issued = record {
  key_id = "k1";
  expiry = 4096;
  nonce = "0123456789abcdef";
  tag = "0123456789abcdef01234567";
}

abbrev work : Settlement
work = record {
  account = "user1";
  check_id = check_id;
  execution_token = some "token";
  outcome = "complete";
}

-- the check's receipt after its settlement at 2050, in the tables that a second worker reads
abbrev settled_row : Dict
unfolding new_row receipt_row pad
settled_row =
    put "GSI1SK"
      (text
        "000000009200#V1#k1#0123456789abcdef0123456789abcdef0123456789abcdef0123456789abcdef#CHECK#v1_k1_00001000_0123456789abcdef_0123456789abcdef01234567")
      (put "GSI1PK" (text "V1_EXPIRING") (
        put "assessmentEpoch" (number 2050) (
          put "resultSummary" null (
            put "expiresAt" (number 9200) (
              put "processingOutcome" (text "complete") (
                put "receiptId" (text "0123456789abcdef0123456789abcdef")
                  (put "chargedChecks" (number 1) (put "state" (text "SETTLED") new_row))))))))

abbrev settles : Commit
unfolding settled_row new_row receipt_row pad
settles db items = (true, tables (some settled_row))

-- no transaction returns
abbrev refuses : Commit
refuses db items = (false, db)

settle-once_example :
    settle env refuses (tables (some settled_row)) (λ row. ok null) work 3000
    ≡ ok (receipt_public settled_row, tables (some settled_row))
unfolding settles settled_row new_row receipt_row receipt_public settle settle_open settle_action
    operations_due captured_condition settlement charge release trial_release inflight_release
    retained owns in_time after_settlement changes change added assert_account is_active_profile
    account_conditions verified_inventory is_inventory value_eq same_keys mac partition token_parts
    verify_token split hex_number take pad pad_hex matches natural integral ◌>>=◌
settle-once_example =
    settle-once env settles refuses (tables (some new_row)) (tables (some settled_row))
      (λ row. ok null) (λ row. ok null) work 2050 3000
      (receipt_public settled_row, tables (some settled_row)) issued part new_row settled_row 1
      "0123456789abcdef0123456789abcdef" (text "token") null 9200 refl refl refl refl refl refl refl
      refl refl

abbrev trial_allowance : Allowance
trial_allowance = record { row = trial_period; used_checks = 9; reserved_checks = 0 }

abbrev trial_key : Key
trial_key = record { pk = part; sk = "PERIOD#t1" }

trial_release-trial_reservation_example :
    (held after : Dict) × (written
        (trial_reservation "authority" trial_key trial_allowance 2000)
        (some trial_period)
      ≡ some held)
    × (written (trial_release "authority" trial_key end 1) (some held) ≡ some after)
    × (natural (lookup "reservedChecks" after) ≡ some 0)
    × (natural (lookup "usedChecks" after) ≡ some (9 + 1))
unfolding natural integral
trial_release-trial_reservation_example =
    trial_release-trial_reservation "authority" trial_key trial_allowance end 1 2000 refl refl

-- the receipt of a check that the funded period of Authority.Tests pays for
abbrev paid_receipt : Dict
paid_receipt = entry "recordType" (text "V1_CHECK_RECEIPT") (
    entry "policyVersion" (text owner_policy) (
      entry "basis" (text "paid") (
        entry "state" (text "ADMITTED") (
          entry "periodSK" (text "PERIOD#p1") (
            entry "grantRevision" (number 1) (
              entry "accessUntilEpoch" (number 5000)
                (entry "purchaseUsageKey" (dict (key_dict funded_key)) end)))))))

-- both rows of the funded period with one reservation
abbrev held_period : Dict
held_period = put "reservedChecks" (number 1) period

abbrev held_rows : Read
unfolding usage_row expiry_sort pad
held_rows k =
    if str_eq k.sk "PERIOD#p1"
    then some held_period
    else some (put "reservedChecks" (number 1) funded_row)

abbrev paid_tables : Db
unfolding held_rows usage_row expiry_sort pad
paid_tables = record (tables none) { authority = held_rows }

abbrev held : Period
held = record {
  row = held_period;
  pointer = funded_key;
  grant_revision = 1;
  start_epoch = 1000;
  end_epoch = 5000;
  access_end = 5000;
  used_checks = 0;
  reserved_checks = 1;
}

paid_release-Paired_example :
    (p : Period) × Names held_rows account paid_receipt p
    × Paired p.row (negsuc 0) (pos 1) 2000 (
        local_counter_action "authority" period_key held_period (negsuc 0) (pos 1)
        ∷ local_counter_action "authority" funded_key
            (put "reservedChecks" (number 1) funded_row)
            (negsuc 0)
            (pos 1)
        ∷ [])
unfolding held_rows paid_tables paid_release period_for_receipt is_paid_receipt
    paired_counter_actions global_for_period matching_usage agrees global_actions counter_action
    read validate_period is_period_row validate valid_key usage_shape usage_numbers bounds
    is_usage_row expiry_holds expiry_sort effective_access_end ◌>>=◌ matches pad same_keys natural
    integral usage_row
paid_release-Paired_example = paid_release-Paired env paid_tables account paid_receipt 1 2000 _ refl

abbrev pub items_of : Result (List Action) → List Action
items_of (ok items) = items
items_of (err e) = []

abbrev settled_items : List Action
settled_items = items_of (
    settlement env (tables (some new_row)) (λ row. ok null) part issued work new_row (text "token")
      2050)

settlement-Charges_example :
    Charges env (tables (some new_row)) part work new_row 2050 settled_items
unfolding new_row receipt_row settlement operations_due captured_condition settle_action charge
    release account_conditions verified_inventory is_inventory value_eq same_keys mac take pad
    natural integral ◌>>=◌
settlement-Charges_example =
    settlement-Charges env (tables (some new_row)) (λ row. ok null) part issued work new_row
      (text "token") 2050 settled_items refl

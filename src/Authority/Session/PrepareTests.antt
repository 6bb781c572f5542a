-- ===== src/Authority/Session/PrepareTests.antt =====
-- A preparation of the account of Tests, its closing and the admission that comes too late.
use amt_trust_check_radar_la.Base.{
  true, none, some, List, [], ◌≡◌, refl, str_eq, if◌then◌else◌, ok, err, ◌>>=◌, arith,
}
use amt_trust_check_radar_la.Python.{
  null, text, Dict, end, entry, put, natural, integral, value_eq, same_keys, matches, pad, take,
  lower_is,
}
use amt_trust_check_radar_la.Dynamo.{Action, changes, change}
use amt_trust_check_radar_la.Authority.Policy.{Result}
use amt_trust_check_radar_la.Authority.Grant.{
  grant, metered, allowance, is_allowance_row, check_basis, access_basis, basis_of, in_force,
  is_access_row, is_trial_window,
}
use amt_trust_check_radar_la.Authority.Session.Store.{
  Db, mac, partition, is_active_profile, assert_account, device, is_inventory, verified_inventory,
  account_conditions, authority_conditions,
}
use amt_trust_check_radar_la.Authority.Session.Admit.{
  Request, basis_fields, new_receipt, reservation, preparation_check, admission,
}
use amt_trust_check_radar_la.Authority.Session.Prepare.{
  Preparation, open_row, preparation_row, close_action,
}
use amt_trust_check_radar_la.Authority.Session.Closes.{
  Closable, close_action-excludes, preparation_row-Closable,
}
use amt_trust_check_radar_la.Authority.Session.Tests.{
  settings, part, digest, check_id, request, env, tables,
}
use amt_trust_check_radar_la.Dynamo.Puts.{canceled_in}

abbrev asked : Preparation
asked = record {
  account = ok "user1";
  headers = null;
  payload = entry "entryPoint" (text "message") end;
  digest = λ k. ok digest;
  preparation_id = "p1";
  client_check_id = some "c1";
  count_attempt = true;
}

abbrev prepared : Dict
unfolding preparation_row open_row pad
prepared = preparation_row settings part asked digest check_id 2000

abbrev closed_row : Dict
unfolding prepared preparation_row open_row pad
closed_row = put "admissionState" (text "CLOSED") prepared

abbrev late_request : Request
late_request = record request { client_check_id = some "c1" }

abbrev closed_tables : Db
unfolding closed_row prepared preparation_row open_row pad
closed_tables = record (tables none) {
  authority = λ k. if str_eq k.sk "PREPARE#c1" then some closed_row else (tables none).authority k;
}

abbrev admitted : Result (Dict × List Action)
admitted = admission env (tables none) "user1" part late_request digest "token" 2000

abbrev receipt_of : Result (Dict × List Action) → Dict × List Action
receipt_of (ok x) = x
receipt_of (err e) = (end, [])

close_action-excludes_example :
    canceled_in "authority" closed_tables.authority (receipt_of admitted).1 ≡ true
unfolding closed_tables prepared closed_row preparation_row open_row close_action changes change
    admission new_receipt basis_fields reservation preparation_check device assert_account
    is_active_profile account_conditions authority_conditions verified_inventory is_inventory
    value_eq same_keys mac partition lower_is take pad matches natural integral grant metered
    allowance is_allowance_row check_basis access_basis basis_of in_force is_access_row
    is_trial_window ◌>>=◌
close_action-excludes_example =
    close_action-excludes env (tables none) closed_tables "user1" part "c1" check_id digest "token"
      late_request prepared closed_row (receipt_of admitted).0 (receipt_of admitted).1 5000 2000
      refl refl refl refl

preparation_row-Closable_example :
    Closable "authority" part "c1" check_id digest
      (λ k. if str_eq k.sk "PREPARE#c1" then some prepared else none)
      prepared
      5000
unfolding prepared preparation_row open_row pad
preparation_row-Closable_example =
    preparation_row-Closable settings part asked digest check_id "c1"
      (λ k. if str_eq k.sk "PREPARE#c1" then some prepared else none) 2000 5000 refl refl
      (λ h. refl, tt) (omega arith)

-- ===== src/Authority/Usage/Tests.antt =====
-- A purchase with one open reservation, past its deadline, on which the theorems of its closing are
-- applied.
use amt_trust_check_radar_la.Base.{
  String, ◌&◌, refl, none, some, [], ◌∷◌, if◌then◌else◌, str_eq, ◌>>=◌,
}
use amt_trust_check_radar_la.Python.{
  pos, null, decimal, text, dict, Dict, end, entry, put, pad, take, split, matches, same_keys,
  natural, integral, value_eq,
}
use amt_trust_check_radar_la.Dynamo.{key_dict, Action, delete, put_item}
use amt_trust_check_radar_la.Authority.Policy.{owner_policy}
use amt_trust_check_radar_la.Authority.Tests.{
  digest, account, funded_key, funded_row, period, period_key,
}
use amt_trust_check_radar_la.Authority.Usage.Row.{
  number, validate, valid_key, usage_shape, usage_numbers, bounds, effective_access_end,
  is_usage_row, expiry_holds, expiry_sort, new_period_usage, usage_row,
}
use amt_trust_check_radar_la.Authority.Usage.Actions.{
  Period, validate_period, is_period_row, exact_condition,
}
use amt_trust_check_radar_la.Authority.Usage.Counters.{agrees}
use amt_trust_check_radar_la.Authority.Usage.Pending.{Receipt, pending_metadata}
use amt_trust_check_radar_la.Authority.Usage.Open.{
  pending_receipt, is_open_of, client_fits, recovery_fits, transports_hold,
}
use amt_trust_check_radar_la.Authority.Usage.Closing.{
  Remote, close_receipt, gather_row, gather_rows, gather_pages, lower_inflight, close_all,
  due_reservation_actions, with_summary, with_operations, failed_row, receipt_condition,
}
use amt_trust_check_radar_la.Authority.Usage.Closures.{IsClosable, close_receipt-IsClosable}
use amt_trust_check_radar_la.Authority.Usage.Gathered.{Closed, due_reservation_actions-Closed}

abbrev check_id : String
check_id = "v1_k1_0000abcd_0123456789abcdef_0123456789abcdef01234567"

abbrev open_row : Dict
open_row = entry "PK" (text account) (
    entry "SK" (text ("CHECK#" & check_id)) (
      entry "recordType" (text "V1_CHECK_RECEIPT") (
        entry "checkId" (text check_id) (
          entry "payloadHmac" (text digest) (
            entry "clientCheckId" (text "c1") (
              entry "projectionScope" (text "full_url") (
                entry "state" (text "ADMITTED") (
                  entry "chargedChecks" null (
                    entry "receiptId" null (
                      entry "processingOutcome" null (
                        entry "basis" (text "paid") (
                          entry "grantRevision" (number 1) (
                            entry "authorityRevision" (number 1) (
                              entry "policyVersion" (text owner_policy) (
                                entry "periodSK" (text "PERIOD#p1") (
                                  entry "executionToken" (text "0123456789abcdef0123456789abcdef") (
                                    entry "settleByEpoch" (number 3000) (
                                      entry "GSI1PK" (text "V1_PENDING") (
                                        entry "GSI1SK"
                                          (text ("000000003000#" & account & "#" & check_id))
                                          (entry "retentionDeadlineEpoch" (number 900000) (
                                            entry "purchaseUsageKey" (dict (key_dict funded_key))
                                              end)))))))))))))))))))))

abbrev inflight : Dict
inflight =
    entry "PK" (text account)
      (entry "SK" (text "INFLIGHT") (entry "activeCount" (decimal (pos 2)) end))

abbrev remote : Remote
remote = record {
  table = "authority";
  query = λ cursor. record { items = open_row ∷ []; last_key = none };
  get_item = λ k. if str_eq k.sk "INFLIGHT" then some inflight else none;
  sha256 = λ s. digest;
  validate_capture = λ v. none;
}

abbrev due_period : Dict
due_period = put "reservedChecks" (number 1) period

abbrev due_row : Dict
due_row = put "reservedChecks" (number 1) funded_row

abbrev open_receipt : Receipt
open_receipt = record {
  row = open_row;
  sk = "CHECK#" & check_id;
  check_id = check_id;
  scope = "full_url";
  settle_by = 3000;
  deadline = 900000;
}

abbrev settled : Action
unfolding failed_row pad take receipt_condition
settled =
    put_item "authority" (failed_row (λ s. digest) period_key open_receipt)
      (receipt_condition open_receipt)

due_reservation_actions-Closed_example :
    Closed remote period_key due_period (dict due_row) (pos 5000) 700000 (
      delete "authority" funded_key (exact_condition due_row)
      ∷ put_item "authority"
          (put "activeCount" (decimal (pos 1)) inflight)
          (exact_condition inflight)
      ∷ settled
      ∷ [])
unfolding due_reservation_actions validate_period is_period_row validate valid_key usage_shape
    usage_numbers bounds is_usage_row expiry_holds expiry_sort effective_access_end ◌>>=◌ matches
    pad same_keys natural integral usage_row new_period_usage agrees gather_pages gather_rows
    gather_row is_open_of pending_receipt client_fits recovery_fits transports_hold pending_metadata
    lower_inflight close_all close_receipt with_summary with_operations failed_row receipt_condition
    take split value_eq settled
due_reservation_actions-Closed_example =
    due_reservation_actions-Closed remote period_key due_period (dict due_row) (pos 5000) 700000 _
      refl

close_receipt-IsClosable_example : IsClosable remote period_key 700000 open_receipt
unfolding validate_period is_period_row bounds effective_access_end valid_key ◌>>=◌ matches pad
    same_keys natural integral pending_receipt client_fits recovery_fits transports_hold
    pending_metadata take split value_eq
close_receipt-IsClosable_example =
    let p : Period = record {
      row = due_period;
      pointer = funded_key;
      grant_revision = 1;
      start_epoch = 1000;
      end_epoch = 5000;
      access_end = 5000;
      used_checks = 0;
      reserved_checks = 1;
    } in
    close_receipt-IsClosable remote period_key p open_row open_receipt none 700000 refl refl

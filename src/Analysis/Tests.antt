-- ===== src/Analysis/Tests.antt =====
-- One request record, its takeover and its result.
use amt_trust_check_radar_la.Base.{all, not, true, false, none, some, ◌≡◌, refl, ok, err, arith}
use amt_trust_check_radar_la.Python.{pos, decimal, text, dict, Dict, end, entry, natural, integral}
use amt_trust_check_radar_la.Analysis.Rates.{
  Limited, counted, RateLimit, rate_action, release_request, release_request-refused,
  rate_action-within,
}
use amt_trust_check_radar_la.Dynamo.{condition_of, added, holds, changes, change}
use amt_trust_check_radar_la.Analysis.Leases.{
  Settings, Attempt, Stored, canceled, number, take_over_lease, store_result, result_ready,
  idempotency_conflict, check_or_lock_request,
}
use amt_trust_check_radar_la.Analysis.LeaseFacts.{
  take_over_lease-excludes, store_result-answers, store_result-conflicts,
}

abbrev settings : Settings
settings = record { table = "abuse"; processing_lease_seconds = 60; request_id_ttl_seconds = 900 }

abbrev first : Attempt
first = record {
  key = "id";
  request_id = "r1";
  payload_hash = "h1";
  lease_token = "one";
  now = 100;
  iso_now = "t100";
}

abbrev second : Attempt
second = record first { lease_token = "two"; now = 200; iso_now = "t200" }

abbrev other_payload : Attempt
other_payload = record second { payload_hash = "h2" }

abbrev leased : Dict
leased = entry "status" (text "PROCESSING") (
    entry "payloadHash" (text "h1") (
      entry "leaseToken" (text "one") (
        entry "leaseExpiresAt" (number 160) (
          entry "updatedAt" (text "t100")
            (entry "expiresAt" (number 1000) (entry "ttl" (number 1000) end))))))

abbrev taken_over : Dict
taken_over = entry "status" (text "PROCESSING") (
    entry "payloadHash" (text "h1") (
      entry "leaseToken" (text "two") (
        entry "leaseExpiresAt" (number 260) (
          entry "updatedAt" (text "t200")
            (entry "expiresAt" (number 1100) (entry "ttl" (number 1100) end))))))

abbrev result : Stored
result = record {
  response = entry "risk" (text "low") end;
  statistics_event_id = none;
  campaign_authorization = none;
  history_authorization = none;
}

abbrev ready : Dict
ready = entry "status" (text "RESULT_READY") (
    entry "payloadHash" (text "h1") (
      entry "updatedAt" (text "t100") (
        entry "expiresAt" (number 1000) (
          entry "ttl" (number 1000) (
            entry "response" (dict (entry "risk" (text "low") end))
              (entry "resultReadyAt" (text "t100") end))))))

take_over_lease-excludes_example :
    holds (condition_of (store_result settings first result)) (some taken_over) ≡ false
unfolding take_over_lease changes change
take_over_lease-excludes_example =
    take_over_lease-excludes settings second first result 160 leased taken_over refl refl

store_result-answers_example :
    check_or_lock_request settings (λ act. canceled) (ok none) false second (some ready)
    ≡ ok (result_ready (entry "risk" (text "low") end))
unfolding store_result changes change
store_result-answers_example =
    store_result-answers settings (λ act. canceled) (ok none) false first second result leased ready
      refl refl refl

store_result-conflicts_example :
    check_or_lock_request settings (λ act. canceled) (ok none) false other_payload (some ready)
    ≡ err idempotency_conflict
unfolding store_result changes change
store_result-conflicts_example =
    store_result-conflicts settings (λ act. canceled) (ok none) false first other_payload result
      leased ready refl refl refl (omega arith)

release_request-refused_example :
    all
      (λ act. not (holds (condition_of act) (some taken_over)))
      (release_request "abuse" "id" "r1" (some "one") "t300" (some leased) false)
    ≡ true
release_request-refused_example =
    release_request-refused "abuse" "id" "r1" "one" "two" "t300" (some leased) false taken_over refl
      refl

abbrev limit : RateLimit
limit = record { table = "abuse"; window_seconds = 300; max_requests = 10 }

abbrev nine : Dict
nine = entry "requestCount" (number 9) end

abbrev ten : Dict
ten = entry "requestCount" (decimal (pos 10)) (
    entry "expiresAt" (number 900) (entry "ttl" (number 900) (entry "updatedAt" (text "t700") end)))

rate_action-within_example : Limited limit "id" 700 9 (rate_action limit "id" 700 "t700") ten
unfolding rate_action changes change added holds natural integral
rate_action-within_example =
    rate_action-within limit "id" "t700" 700 9 (some nine) ten (omega arith) (counted refl) refl
      refl

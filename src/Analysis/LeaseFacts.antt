-- ===== src/Analysis/LeaseFacts.antt =====
-- A lease that was taken over is lost, and a stored result answers its own payload only.
use amt_trust_check_radar_la.Base.{
  ℕ, ◌+◌, ◌<◌, String, Bool, true, false, ◌&&◌, not, Option, some, none, List, ◌∷◌, ◌≡◌, refl, ap,
  ◌∙◌, subst, sym, str_eq, eq_iff, Outcome, ok, err, require-some, raise_if-false, ◌>>=◌, arith,
}
use amt_trust_check_radar_la.Python.{
  Value, text, dict, Dict, value_or, get, put, get-put, lookup, natural, is_text, value_eq,
}
use amt_trust_check_radar_la.Dynamo.{
  Action, Change, equals, assign, written, changes, change, changes-step, holds, condition_of,
}
use amt_trust_check_radar_la.Dynamo.Spares.{
  some-same, spares, set-put, changes-spares, changes-sets,
}
use amt_trust_check_radar_la.Analysis.Leases.{
  Settings, Attempt, Stored, result_ready, Failure, idempotency_conflict, Commit, number, if_given,
  ending, take_over_lease, store_result, check_or_lock_request, check_existing,
}

take_over-token :
    (s : Settings) (a : Attempt) (previous : ℕ) (row after : Dict)
    → written (take_over_lease s a previous) (some row) ≡ some after
    → get "leaseToken" after ≡ some (text a.lease_token)
unfolding take_over_lease changes change
take_over-token s a previous row after h =
    subst (λ d. get "leaseToken" d ≡ some (text a.lease_token)) (some-same h) (simp get-put)

equals-token :
    (t u : String) (row : Dict)
    → get "leaseToken" row ≡ some (text t)
    → str_eq u t ≡ false
    → holds (equals "leaseToken" (text u)) (some row) ≡ false
unfolding holds value_eq
equals-token t u row h d = ground arith

-- Once an expired lease was taken over with another token, every result that a worker with an older
-- token would store is refused, whatever it is, at any later time.
pub take_over_lease-excludes :
    (s : Settings) (a b : Attempt) (r : Stored) (previous : ℕ) (row after : Dict)
    → written (take_over_lease s a previous) (some row) ≡ some after
    → str_eq b.lease_token a.lease_token ≡ false
    → holds (condition_of (store_result s b r)) (some after) ≡ false
unfolding store_result holds
take_over_lease-excludes s a b r previous row after h differ =
    let token =
      equals-token a.lease_token b.lease_token after (take_over-token s a previous row after h)
        differ in
    ground arith

abbrev lookup_or : String → Dict → Value
lookup_or k d = value_or (get k d) (number 0)

-- what a stored result leaves
record Ready (s : Settings) (a : Attempt) (r : Stored) (row after : Dict) : Type 0 where
  status : lookup "status" after ≡ text "RESULT_READY"
  expires : natural (lookup_or "expiresAt" after) ≡ some (a.now + s.request_id_ttl_seconds)
  payload : lookup "payloadHash" after ≡ lookup "payloadHash" row
  response : lookup "response" after ≡ dict r.response

if_given-spares :
    (k j : String) (o : Option Value) (cs : List Change)
    → str_eq j k ≡ false
    → spares k cs ≡ true
    → spares k (if_given j o cs) ≡ true
if_given-spares k j none cs h s = s
if_given-spares k j (some v) cs h s = ground arith

-- the changes of `store_result` after its expiry
ending-spares :
    (k : String) (r : Stored)
    → not (str_eq "statisticsEventId" k)
        && not (str_eq "campaignAuthorization" k)
        && not (str_eq "historyAuthorization" k)
        && not (str_eq "leaseToken" k)
        && not (str_eq "leaseExpiresAt" k)
      ≡ true
    → spares k (ending r) ≡ true
ending-spares k r h = if_given-spares k "statisticsEventId" r.statistics_event_id _ (ground arith) (
    if_given-spares k "campaignAuthorization" r.campaign_authorization _ (ground arith) (
      if_given-spares k "historyAuthorization" r.history_authorization _ (ground arith)
        (ground arith)))

past :
    (j : String) (w : Value) (cs : List Change) (d e : Dict)
    → changes (assign j w ∷ cs) d ≡ some e
    → changes cs (put j w d) ≡ some e
past j w cs d e h = sym (changes-step (assign j w) cs d (put j w d) (set-put j w d)) ∙ h

store_result-Ready :
    (s : Settings) (a : Attempt) (r : Stored) (row after : Dict)
    → written (store_result s a r) (some row) ≡ some after
    → Ready s a r row after
unfolding store_result natural
store_result-Ready s a r row after h =
    let step1 = past "status" _ _ row after h in
    let step2 = past "response" _ _ _ after step1 in
    let step3 = past "resultReadyAt" _ _ _ after step2 in
    let step4 = past "updatedAt" _ _ _ after step3 in
    let status = changes-sets "status" _ _ row after (ending-spares "status" r refl) h in
    let response = changes-sets "response" _ _ _ after (ending-spares "response" r refl) step1 in
    let expires = changes-sets "expiresAt" _ _ _ after (ending-spares "expiresAt" r refl) step4 in
    let payload = changes-spares "payloadHash" _ row after (ending-spares "payloadHash" r refl) h in
    record {
      status = rw status refl;
      expires = rw expires refl;
      payload = rw payload refl;
      response = rw response refl;
    }

no-conflict : (c : Bool) (t : String) → (c && not (is_text t (text t))) ≡ false
no-conflict c t = ground (arith, eq_iff t t)

-- A stored result answers every request for the same payload, also after the record's expiry, and
-- no write is made.
pub store_result-answers :
    (s : Settings) (commit : Action → Commit) (durable : Outcome Failure (Option Dict))
    (durable_enabled : Bool) (a b : Attempt) (r : Stored) (row after : Dict)
    → written (store_result s a r) (some row) ≡ some after
    → lookup "payloadHash" row ≡ text a.payload_hash
    → b.payload_hash ≡ a.payload_hash
    → check_or_lock_request s commit durable durable_enabled b (some after)
      ≡ ok (result_ready r.response)
unfolding check_or_lock_request check_existing
store_result-answers s commit durable durable_enabled a b r row after wrote payload same =
    let ready = store_result-Ready s a r row after wrote in
    let found : lookup "payloadHash" after ≡ text b.payload_hash =
      ready.payload ∙ payload ∙ ap text (sym same) in
    require-some _ _ ready.expires
    ∙ raise_if-false _ _ (rw found (no-conflict _ b.payload_hash))
    ∙ raise_if-false _ _ (rw ready.status refl)
    ∙ rw (ready.response, ready.status) refl

-- Until the record expires, a request of the same id with another payload is refused.
pub store_result-conflicts :
    (s : Settings) (commit : Action → Commit) (durable : Outcome Failure (Option Dict))
    (durable_enabled : Bool) (a b : Attempt) (r : Stored) (row after : Dict)
    → written (store_result s a r) (some row) ≡ some after
    → lookup "payloadHash" row ≡ text a.payload_hash
    → str_eq a.payload_hash b.payload_hash ≡ false
    → b.now < a.now + s.request_id_ttl_seconds
    → check_or_lock_request s commit durable durable_enabled b (some after)
      ≡ err idempotency_conflict
unfolding check_or_lock_request check_existing ◌>>=◌
store_result-conflicts s commit durable durable_enabled a b r row after wrote payload differ early =
    let ready = store_result-Ready s a r row after wrote in
    let found = ready.payload ∙ payload in rw (ready.expires, found) (ground arith)

-- ===== src/Analysis/Leases.antt =====
-- The writes of a request record and `check_or_lock_request`, which answers, locks or refuses. The
-- identity's digest is `key`, the payload's `payload_hash`; the lease token is a new random text. A
-- stored value is answered as it is, without the conversion of its numbers.
use amt_trust_check_radar_la.Base.{
  ℕ, ◌+◌, String, Bool, ◌&&◌, ◌||◌, not, Option, none, some, List, [], ◌∷◌, ltb, leb, if◌then◌else◌,
  ◌&◌, Outcome, ok, err, ◌>>=◌, ◌>>◌, raise_if, require,
}
use amt_trust_check_radar_la.Python.{
  pos, Value, text, int, dict, Dict, end, entry, get, lookup, value_or, natural, is_text, dict_of,
}
use amt_trust_check_radar_la.Dynamo.{
  Key, Condition, equals, both, not_exists, Change, assign, discard, Action, put_item, update,
}

-- the codes of `AppError`
pub data Failure : Type 0 where
  request_in_progress idempotency_conflict result_unavailable server_unavailable : Failure
  account_inactive : Failure
  -- an error that nothing catches
  uncaught : Failure

pub record Settings : Type 0 where
  pub table : String
  pub processing_lease_seconds : ℕ
  pub request_id_ttl_seconds : ℕ

-- a request, with the time and the new lease token of this attempt
pub record Attempt : Type 0 where
  pub key : String
  pub request_id : String
  pub payload_hash : String
  pub lease_token : String
  pub now : ℕ
  pub iso_now : String

-- `transact_write_items` with the checks of the account: it returns, or is canceled while the account
-- is active or not
pub data Commit : Type 0 where
  written_now canceled fenced : Commit

unfoldable pub transact : Commit → Outcome Failure Unit
transact written_now = ok tt
transact canceled = err request_in_progress
transact fenced = err account_inactive

abbrev pub number : ℕ → Value
number n = int (pos n)

abbrev request_key : Attempt → Key
request_key a = record { pk = "ANALYSIS#REQUEST#" & a.key; sk = a.request_id }

abbrev lease_end : Settings → Attempt → ℕ
lease_end s a = a.now + s.processing_lease_seconds

abbrev expiry : Settings → Attempt → ℕ
expiry s a = a.now + s.request_id_ttl_seconds

-- the record of a new request
unfoldable pub new_request : Settings → Attempt → Action
new_request s a =
    put_item s.table
      (entry "PK" (text ("ANALYSIS#REQUEST#" & a.key)) (
        entry "SK" (text a.request_id) (
          entry "status" (text "PROCESSING") (
            entry "payloadHash" (text a.payload_hash) (
              entry "leaseToken" (text a.lease_token) (
                entry "leaseExpiresAt" (number (lease_end s a)) (
                  entry "createdAt" (text a.iso_now) (
                    entry "updatedAt" (text a.iso_now) (
                      entry "expiresAt" (number (expiry s a))
                        (entry "ttl" (number (expiry s a)) end))))))))))
      (both (not_exists "PK") (not_exists "SK"))

-- what every new lease of an old record assigns
abbrev lease_changes : Settings → Attempt → List Change
lease_changes s a =
    assign "leaseToken" (text a.lease_token)
    ∷ assign "leaseExpiresAt" (number (lease_end s a))
    ∷ assign "updatedAt" (text a.iso_now)
    ∷ assign "expiresAt" (number (expiry s a))
    ∷ assign "ttl" (number (expiry s a))
    ∷ []

-- `_take_over_expired_lease`
unfoldable pub take_over_lease : Settings → Attempt → ℕ → Action
take_over_lease s a previous = update s.table (request_key a) (lease_changes s a) (
    both (equals "status" (text "PROCESSING")) (
      both (equals "payloadHash" (text a.payload_hash))
        (equals "leaseExpiresAt" (number previous))))

-- `_take_over_retryable`
unfoldable pub take_over_retryable : Settings → Attempt → Action
take_over_retryable s a =
    update s.table (request_key a) (assign "status" (text "PROCESSING") ∷ lease_changes s a)
      (both (equals "status" (text "RETRYABLE")) (equals "payloadHash" (text a.payload_hash)))

-- `_replace_expired_request`
unfoldable pub replace_expired : Settings → Attempt → ℕ → Action
replace_expired s a previous =
    update s.table (request_key a)
      (assign "status" (text "PROCESSING")
        ∷ assign "payloadHash" (text a.payload_hash)
        ∷ assign "leaseToken" (text a.lease_token)
        ∷ assign "leaseExpiresAt" (number (lease_end s a))
        ∷ assign "createdAt" (text a.iso_now)
        ∷ assign "updatedAt" (text a.iso_now)
        ∷ assign "expiresAt" (number (expiry s a))
        ∷ assign "ttl" (number (expiry s a))
        ∷ discard "response"
        ∷ discard "resultReadyAt"
        ∷ discard "completedAt"
        ∷ [])
      (equals "expiresAt" (number previous))

-- a worker holds the record of its payload by its lease token
abbrev pub held_by : String → String → Condition
held_by payload_hash lease_token =
    both (equals "status" (text "PROCESSING"))
      (both (equals "payloadHash" (text payload_hash)) (equals "leaseToken" (text lease_token)))

abbrev pub if_given : String → Option Value → List Change → List Change
if_given k none rest = rest
if_given k (some v) rest = assign k v ∷ rest

-- what a worker stores; an authorization that is absent or falsy is `none`
pub record Stored : Type 0 where
  pub response : Dict
  pub statistics_event_id : Option Value
  pub campaign_authorization : Option Value
  pub history_authorization : Option Value

-- what is written only if it is given, and the end of the lease
abbrev pub ending : Stored → List Change
ending r = if_given "statisticsEventId" r.statistics_event_id (
    if_given "campaignAuthorization" r.campaign_authorization (
      if_given "historyAuthorization" r.history_authorization
        (discard "leaseToken" ∷ discard "leaseExpiresAt" ∷ [])))

-- the write of `store_result`
unfoldable pub store_result : Settings → Attempt → Stored → Action
store_result s a r =
    update s.table (request_key a)
      (assign "status" (text "RESULT_READY")
        ∷ assign "response" (dict r.response)
        ∷ assign "resultReadyAt" (text a.iso_now)
        ∷ assign "updatedAt" (text a.iso_now)
        ∷ assign "expiresAt" (number (expiry s a))
        ∷ assign "ttl" (number (expiry s a))
        ∷ ending r)
      (held_by a.payload_hash a.lease_token)

-- the answer of `check_or_lock_request`
pub data Answer : Type 0 where
  result_ready : Dict → Answer
  completed : Dict → Answer
  processing : String → Answer

-- `int(existing.get(k, 0))`; the times of a record are not negative
abbrev epoch : String → Dict → Outcome Failure ℕ
epoch k row = require (natural (value_or (get k row) (number 0))) uncaught

abbrev locked : Attempt → Commit → Outcome Failure Answer
locked a w = transact w >> ok (processing a.lease_token)

-- `_durable_replay`: the answer that another store keeps of the request, if there is one
abbrev or_durable : Outcome Failure (Option Dict) → Outcome Failure Answer → Outcome Failure Answer
or_durable durable rest =
    durable >>= λ found. elim found [ none ↦ rest | some r ↦ ok (completed r) ]

abbrev has_status : String → Dict → Bool
has_status s row = is_text s (lookup "status" row)

-- a record in progress, or in a state that is not known
unfoldable pub check_processing :
    Settings → (Action → Commit) → Attempt → Dict → Outcome Failure Answer
check_processing s commit a row = do
  lease ← epoch "leaseExpiresAt" row
  raise_if (has_status "PROCESSING" row && ltb a.now lease) request_in_progress
  raise_if (not (has_status "PROCESSING" row)) server_unavailable
  locked a (commit (take_over_lease s a lease))

-- the response of a completed record
abbrev completed_response : Dict → Option Dict
completed_response row =
    if has_status "COMPLETED" row then dict_of (lookup "response" row) else none

unfoldable pub check_live :
    Settings
    → (Action → Commit)
    → Outcome Failure (Option Dict)
    → Attempt
    → Dict
    → Outcome Failure Answer
check_live s commit durable a row = elim (completed_response row) [
  | some r ↦ or_durable durable (ok (completed r))
  | none ↦ check_processing s commit a row
]

-- a record that has no result to answer with
unfoldable pub later :
    Settings
    → (Action → Commit)
    → Outcome Failure (Option Dict)
    → Attempt
    → Dict
    → ℕ
    → Outcome Failure Answer
later s commit durable a row expires =
    if has_status "RETRYABLE" row
    then locked a (commit (take_over_retryable s a))
    else if leb expires a.now
    then or_durable durable (locked a (commit (replace_expired s a expires)))
    else check_live s commit durable a row

-- the record of the request, which may have expired
unfoldable pub check_existing :
    Settings
    → (Action → Commit)
    → Outcome Failure (Option Dict)
    → Bool
    → Attempt
    → Dict
    → Outcome Failure Answer
check_existing s commit durable durable_enabled a row = do
  expires ← epoch "expiresAt" row
  raise_if
      ((ltb a.now expires || durable_enabled)
        && not (is_text a.payload_hash (lookup "payloadHash" row)))
      idempotency_conflict
  raise_if (has_status "COMPLETED_ERASED" row) result_unavailable
  elim (dict_of (lookup "response" row)) [
    | some r ↦
        if has_status "RESULT_READY" row
        then ok (result_ready r)
        else later s commit durable a row expires
    | none ↦ later s commit durable a row expires
  ]

-- `check_or_lock_request`
unfoldable pub check_or_lock_request :
    Settings
    → (Action → Commit)
    → Outcome Failure (Option Dict)
    → Bool
    → Attempt
    → Option Dict
    → Outcome Failure Answer
check_or_lock_request s commit durable durable_enabled a none =
    or_durable durable (locked a (commit (new_request s a)))
check_or_lock_request s commit durable durable_enabled a (some row) =
    check_existing s commit durable durable_enabled a row

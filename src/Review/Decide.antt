-- ===== src/Review/Decide.antt =====
-- `review`: the guards, and the transaction that it sends. Attributes are read as the values that their
-- wire format stands for, and a body that is no JSON is `none`. Whether a reason shows an address or a
-- telephone number (the patterns EMAIL and PHONE), the shard of a campaign and the id of the audit row
-- are parameters. A reason code or an action that is no text is refused here as invalid, where Python
-- may raise another exception.
use amt_trust_check_radar_la.Base.{
  ℕ, String, ◌&◌, Bool, true, ◌&&◌, ◌||◌, not, Option, none, some, List, [], ◌∷◌, ltb, leb, length,
  str_eq, if◌then◌else◌, Outcome, ok, ◌>>=◌, ◌>>◌, raise_if, require,
}
use amt_trust_check_radar_la.Python.{
  ℤ, pos, ◌+ℤ◌, Value, text, decimal, Dict, end, entry, get, lookup, value_or, text_of, dict_of,
  is_number, integral, natural, same_keys, matches, name_char, codes, pad, is_uuid4, mem_key,
}
use amt_trust_check_radar_la.Dynamo.{
  Key, Condition, not_exists, equals, above, both, Change, assign, discard, Action, update,
  put_item,
}
use amt_trust_check_radar_la.Review.Reviewer.{Groups, is_authorized}

-- the codes of `ReviewError`, and `malformed` for the exceptions that a row of another shape raises
pub data ReviewError : Type 0 where
  forbidden invalid_request requires_source_ledger not_found : ReviewError
  invalid_transition privacy_threshold malformed : ReviewError

pub record Environment : Type 0 where
  pub table : String
  pub reviewer_group : String
  pub minimum_contributors : ℕ
  pub shard : String → ℕ
  pub audit_id : String
  pub shows_contact : String → Bool

pub record Review : Type 0 where
  pub campaign_id : String
  pub action : String
  pub reason_code : String

-- what is sent, and the state and version that are answered once it is accepted
pub record Reviewed : Type 0 where
  pub update : Action
  pub audit : Action
  pub state : String
  pub version : ℤ

unfoldable pub transitions : String → String → Option String
transitions state action =
    if str_eq state "PENDING_REVIEW" && str_eq action "confirm"
    then some "CONFIRMED"
    else if str_eq state "PENDING_REVIEW" && str_eq action "suppress"
    then some "SUPPRESSED"
    else if str_eq state "CONFIRMED" && str_eq action "publish"
    then some "PUBLISHED"
    else if str_eq state "CONFIRMED" && str_eq action "suppress"
    then some "SUPPRESSED"
    else if str_eq state "PUBLISHED" && str_eq action "emergency_suppress"
    then some "SUPPRESSED"
    else none

abbrev is_reason_code : String → Bool
is_reason_code s = mem_key s (
    "quality_verified" ∷ "privacy_verified" ∷ "policy_violation" ∷ "false_positive" ∷ "emergency"
    ∷ [])

abbrev is_bounded_reason : Environment → String → Bool
is_bounded_reason v s =
    leb 8 (length (codes s)) && leb (length (codes s)) 256 && not (v.shows_contact s)

unfoldable pub read_request : Environment → Value → Option Value → Outcome ReviewError Review
unfolding same_keys matches
read_request v campaign body = do
  campaign_id ← require (text_of campaign) invalid_request
  raise_if (not (matches "" name_char 1 64 campaign_id)) invalid_request
  value ← require body invalid_request
  payload ← require (dict_of value) invalid_request
  raise_if (not (same_keys payload ("schemaVersion" ∷ "action" ∷ "reasonCode" ∷ "reason" ∷ [])))
      invalid_request
  raise_if (not (is_number 1 (lookup "schemaVersion" payload))) invalid_request
  reason_code ← require (text_of (lookup "reasonCode" payload)) invalid_request
  raise_if (not (is_reason_code reason_code)) invalid_request
  reason ← require (text_of (lookup "reason" payload)) invalid_request
  raise_if (not (is_bounded_reason v reason)) invalid_request
  action ← require (text_of (lookup "action" payload)) invalid_request
  raise_if (str_eq action "merge" || str_eq action "split") requires_source_ledger
  ok (record { campaign_id = campaign_id; action = action; reason_code = reason_code })

-- the row's expiry, which must lie ahead
unfoldable pub live_until : Dict → ℕ → Outcome ReviewError ℕ
live_until row now = do
  expiry ← require (natural (lookup "expiresAt" row)) not_found
  raise_if (leb expiry now) not_found
  ok expiry

abbrev is_environment : String → Bool
is_environment s = mem_key s ("dev" ∷ "uat" ∷ "prod" ∷ [])

-- a row of an expiry partition is in its own
unfoldable pub placed : Environment → String → Dict → Option String → Outcome ReviewError Unit
unfolding is_uuid4
placed v campaign_id row none = ok tt
placed v campaign_id row (some partition) = do
  environment ← require (text_of (lookup "environment" row)) not_found
  raise_if
      (not (is_uuid4 campaign_id)
        || not (is_environment environment)
        || not (str_eq partition ("EXPIRY#" & (environment & ("#" & pad 2 (v.shard campaign_id))))))
      not_found

-- `int(raw.get(k, {'N': '0'})['N'])`
abbrev pub count_attribute : String → Dict → Option ℤ
count_attribute k row = integral (value_or (get k row) (decimal (pos 0)))

abbrev pub fewer : ℤ → ℕ → Bool
fewer (pos n) minimum = ltb n minimum
fewer (ℤ.negsuc n) minimum = true

abbrev pub campaign_key : String → Key
campaign_key campaign_id = record { pk = "CAMPAIGN#" & campaign_id; sk = "AGGREGATE" }

abbrev pub is_public : String → Bool
is_public s = str_eq s "CONFIRMED" || str_eq s "PUBLISHED"

abbrev pub in_partition : Option String → Condition → Condition
in_partition none c = c
in_partition (some partition) c = both c (equals "expiryPartition" (text partition))

-- the entries of the index of published campaigns
unfoldable pub index_changes : String → String → String → Dict → Outcome ReviewError (List Change)
index_changes campaign_id current target row =
    if str_eq target "PUBLISHED"
    then (do
      period ← require (text_of (lookup "periodWeek" row)) malformed
      ok (
          assign "GSI1PK" (text "STATE#PUBLISHED")
          ∷ assign "GSI1SK" (text (period & ("#CAMPAIGN#" & campaign_id)))
          ∷ []))
    else ok (if str_eq current "PUBLISHED" then discard "GSI1PK" ∷ discard "GSI1SK" ∷ [] else [])

abbrev pub unchanged_since : String → ℤ → Value → ℕ → Option String → Condition
unchanged_since current version expiry now partition = in_partition partition (
    both (both (equals "state" (text current)) (equals "version" (decimal version)))
      (both (equals "expiresAt" expiry) (above "expiresAt" now)))

abbrev audit_partition : Option String → Dict
audit_partition none = end
audit_partition (some partition) = entry "expiryPartition" (text partition) end

abbrev pub review_audit : Environment → Review → String → String → Value → Option String → Dict
review_audit v r current target expiry partition = entry "PK" (text ("CAMPAIGN#" & r.campaign_id)) (
    entry "SK" (text ("AUDIT#" & v.audit_id)) (
      entry "schemaVersion" (decimal (pos 1)) (
        entry "action" (text r.action) (
          entry "fromState" (text current) (
            entry "toState" (text target) (
              entry "reasonCode" (text r.reason_code) (
                entry "reviewerRole" (text v.reviewer_group) (
                  entry "auditId" (text v.audit_id)
                    (entry "expiresAt" expiry (audit_partition partition))))))))))

-- the decision on a row that was read
unfoldable pub decide : Environment → Review → Dict → ℕ → Outcome ReviewError Reviewed
unfolding transitions live_until placed index_changes
decide v r row now = do
  expiry ← live_until row now
  let partition = text_of (lookup "expiryPartition" row)
  placed v r.campaign_id row partition
  current ← require (text_of (lookup "state" row)) invalid_transition
  target ← require (transitions current r.action) invalid_transition
  contributors ← require (count_attribute "contributorCount" row) malformed
  raise_if (is_public target && fewer contributors v.minimum_contributors) privacy_threshold
  version ← require (count_attribute "version" row) malformed
  index ← index_changes r.campaign_id current target row
  ok (record {
    update =
        update v.table (campaign_key r.campaign_id)
          (assign "state" (text target) ∷ assign "version" (decimal (version +ℤ pos 1)) ∷ index)
          (unchanged_since current version (lookup "expiresAt" row) now partition);
    audit =
        put_item v.table (review_audit v r current target (lookup "expiresAt" row) partition)
          (both (not_exists "PK") (not_exists "SK"));
    state = target;
    version = version +ℤ pos 1;
  })

-- `review`, with the row that its read finds
unfoldable pub review :
    Environment
    → Groups
    → Value
    → Option Value
    → (Key → Option Dict)
    → ℕ
    → Outcome ReviewError Reviewed
unfolding read_request decide is_authorized
review v groups campaign body rows now = do
  raise_if (not (is_authorized groups v.reviewer_group)) forbidden
  r ← read_request v campaign body
  row ← require (rows (campaign_key r.campaign_id)) not_found
  decide v r row now

-- ===== src/Authority/Session/Token.antt =====
-- The operation proof: the check id that `prepare` issues, which names its key, its expiry, a nonce
-- and a tag that only the holder of the key can make; and the counter of attempts.
use amt_trust_check_radar_la.Base.{
  ℕ, ◌+◌, ◌-◌, ◌%◌, String, Bool, true, false, ◌&&◌, not, Option, none, some, [], ◌∷◌, ◌++◌, leb,
  str_eq, if◌then◌else◌, ◌&◌, ok, err, ◌>>=◌, ◌>>◌, raise_if, require,
}
use amt_trust_check_radar_la.Python.{
  pos, negsuc, text, Dict, get, value_or, integral, matches, alnum, hex, pad, pad_hex, Parts, parts,
  split, hex_number, take,
}
use amt_trust_check_radar_la.Dynamo.{Key, either, not_exists, below, assign, add, Action, update}
use amt_trust_check_radar_la.Authority.Policy.{
  Code, Result, operation_proof_required, key_version_unavailable, check_id_conflict,
  operation_expired, rate_limited, transaction_uncertain,
}
use amt_trust_check_radar_la.Authority.Usage.Row.{number}
use amt_trust_check_radar_la.Authority.Session.Settings.{Settings, is_key_id}
use amt_trust_check_radar_la.Authority.Session.Store.{Db, Env, Commit, mac, account_conditions}

pub record Token : Type 0 where
  pub key_id : String
  pub expiry : ℕ
  pub nonce : String
  pub tag : String

abbrev token_of : Parts → Option Token
token_of (parts v (k ∷ x ∷ n ∷ t ∷ [])) =
    if str_eq v "v1"
      && matches "" alnum 1 8 k
      && matches "" hex 8 8 x
      && matches "" hex 16 16 n
      && matches "" hex 24 24 t
    then some (record { key_id = k; expiry = hex_number x; nonce = n; tag = t })
    else none
token_of _ = none

-- `_token_parts`
unfoldable pub token_parts : Env → String → Result Token
token_parts e check_id = do
  t ← require (token_of (split b'_' check_id)) operation_proof_required
  raise_if (not (is_key_id t.key_id e.settings.hmac_keys)) key_version_unavailable
  ok t

-- the text that the tag of a token authenticates
abbrev pub signed : String → String → ℕ → String → String
signed account digest expiry nonce =
    account & "\0" & digest & "\0" & pad_hex 8 expiry & "\0" & nonce

-- `_verify_token`
unfoldable pub verify_token : Env → String → String → String → ℕ → Bool → Result Token
verify_token e account check_id digest now allow_expired = do
  t ← token_parts e check_id
  m ← mac e t.key_id "operation" (signed account digest t.expiry t.nonce)
  raise_if (not (str_eq t.tag (take 24 m))) check_id_conflict
  raise_if (not allow_expired && leb t.expiry now) operation_expired
  ok t

abbrev pub attempt_window : Settings → ℕ → ℕ
attempt_window s now = now - now % s.attempt_window_seconds

abbrev pub attempt_key : Settings → String → ℕ → Key
attempt_key s part now = record { pk = part; sk = "ATTEMPT#" & pad 1 (attempt_window s now) }

abbrev pub attempt_deadline : Settings → ℕ → ℕ
attempt_deadline s now = attempt_window s now + s.counter_retention_seconds

unfoldable pub attempt_action : Settings → String → ℕ → Action
attempt_action s part now =
    let k = attempt_key s part now in
    update s.authority_table k
      (assign "expiresAt" (number (attempt_deadline s now))
        ∷ assign "recordType" (text "V1_ATTEMPT_COUNTER")
        ∷ assign "GSI1PK" (text "V1_EXPIRING")
        ∷ assign "GSI1SK" (text (pad 12 (attempt_deadline s now) & "#" & part & "#" & k.sk))
        ∷ add "attempts" (pos 1)
        ∷ [])
      (either (not_exists "attempts") (below "attempts" s.attempts_per_window))

-- `current and current.get(field, 0) >= cap`
abbrev pub reached : String → ℕ → Option Dict → Bool
reached field cap none = false
reached field cap (some row) = elim (integral (value_or (get field row) (number 0))) [
  | none ↦ false
  | some (pos n) ↦ leb cap n
  | some (negsuc n) ↦ false
]

-- the error of a transaction that did not return
abbrev pub transaction_error : String → ℕ → Option Dict → Code
transaction_error field cap row =
    if reached field cap row then rate_limited else transaction_uncertain

abbrev attempt_result : Settings → String → ℕ → Bool × Db → Result Db
attempt_result s part now (true, db) = ok db
attempt_result s part now (false, db) =
    err (transaction_error "attempts" s.attempts_per_window (db.authority (attempt_key s part now)))

-- `_attempt`
unfoldable pub attempt : Env → Commit → Db → String → String → ℕ → Result Db
attempt e commit db account part now = do
  conditions ← account_conditions e db account
  attempt_result e.settings part now
      (commit db (conditions ++ (attempt_action e.settings part now ∷ [])))

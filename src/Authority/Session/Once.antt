-- ===== src/Authority/Session/Once.antt =====
-- A check is settled once: the receipt that a settlement leaves answers every later one.
use amt_trust_check_radar_la.Base.{
  ℕ, String, true, not, Option, some, ◌≡◌, refl, sym, subst, ap, ◌∙◌, any, str_eq, ok, Ensures,
  Ensures-bind, Ensures-require, Ensures-raise_if, Ensures-ok, bind-ok, require-some,
  raise_if-false, arith,
}
use amt_trust_check_radar_la.Python.{Value, Dict, get, get-put, lookup, text_of}
use amt_trust_check_radar_la.Dynamo.{written, changes, change}
use amt_trust_check_radar_la.Authority.Policy.{Result}
use amt_trust_check_radar_la.Authority.Usage.Row.{number}
use amt_trust_check_radar_la.Authority.Session.Settings.{Settings}
use amt_trust_check_radar_la.Authority.Session.Store.{Db, Env, Commit, partition, assert_account}
use amt_trust_check_radar_la.Authority.Session.Token.{Token, token_parts, verify_token}
use amt_trust_check_radar_la.Authority.Session.Admit.{receipt_public, check_key}
use amt_trust_check_radar_la.Authority.Session.Settle.{
  Settlement, outcomes, retained, owns, token_matches, settle, settle_action, is_settled,
}

-- what a settlement leaves of the fields that a later one reads
pub record IsClosed (charged : ℕ) (row closed : Dict) : Type 0 where
  pub settled : is_settled closed ≡ true
  pub charge_written : lookup "chargedChecks" closed ≡ number charged
  pub same_payload : lookup "payloadHmac" closed ≡ lookup "payloadHmac" row
  pub same_token : get "executionToken" closed ≡ get "executionToken" row

some-injective : {a b : Dict} → some a ≡ some b → a ≡ b
some-injective e = cc

-- The settlement action turns an admitted receipt into one that is settled, with the charge, for
-- the same payload and execution.
pub settle_action-IsClosed :
    (s : Settings) (part : String) (w : Settlement) (row closed : Dict) (charged : ℕ)
    (receipt_id : String) (token summary : Value) (deadline at : ℕ)
    → written (settle_action s part w row charged receipt_id token deadline summary at) (some row)
      ≡ some closed
    → IsClosed charged row closed
unfolding settle_action changes change
settle_action-IsClosed s part w row closed charged receipt_id token summary deadline at h = record {
  settled = subst (λ d. is_settled d ≡ true) (some-injective h) (simp get-put);
  charge_written =
      subst (λ d. lookup "chargedChecks" d ≡ number charged) (some-injective h) (simp get-put);
  same_payload =
      subst (λ d. lookup "payloadHmac" d ≡ lookup "payloadHmac" row) (some-injective h)
        (simp get-put);
  same_token =
      subst (λ d. get "executionToken" d ≡ get "executionToken" row) (some-injective h)
        (simp get-put);
}

retained-some : (o : Option Dict) (now : ℕ) → Ensures (λ row. o ≡ some row) (retained o now)
unfolding retained
retained-some o now =
    Ensures-require _ _ _
      λ r hr. Ensures-require _ _ _ λ d hd. Ensures-raise_if _ _ _ λ h. Ensures-ok _ hr

-- the tests that a settlement passes before it looks at the state of the receipt
record Passed (e : Env) (db : Db) (w : Settlement) (now : ℕ) : Type 0 where
  t : Token
  part : String
  row : Dict
  digest : String
  account_ok : assert_account db w.account ≡ ok tt
  token_ok : token_parts e w.check_id ≡ ok t
  part_ok : partition e w.account t.key_id ≡ ok part
  row_there : db.authority (check_key part w.check_id) ≡ some row
  digest_ok : text_of (lookup "payloadHmac" row) ≡ some digest
  proof : Token
  verified : verify_token e w.account w.check_id digest now true ≡ ok proof
  owner : owns w row ≡ true
  known_outcome : any (str_eq w.outcome) outcomes ≡ true

settle-Passed :
    (e : Env) (commit : Commit) (db : Db) (summary : Dict → Result Value) (w : Settlement) (now : ℕ)
    → Ensures (λ out. Passed e db w now) (settle e commit db summary w now)
unfolding settle
settle-Passed e commit db summary w now = Ensures-bind _ _ λ a ha. Ensures-bind _ _ λ t ht.
    Ensures-bind _ _ λ part hp. Ensures-bind _ _ λ row hr. Ensures-require _ _ _ λ digest hd.
      Ensures-bind _ _ λ proof hv. Ensures-raise_if _ _ _ λ ho. Ensures-raise_if _ _ _ λ hk.
        record {
          at = λ out h. record {
            t = t;
            part = part;
            row = row;
            digest = digest;
            account_ok = ha;
            token_ok = ht;
            part_ok = hp;
            row_there = (retained-some _ now).at row hr;
            digest_ok = hd;
            proof = proof;
            verified = hv;
            owner = ground arith;
            known_outcome = ground arith;
          };
        }

-- The expiry of a token is not tested at a settlement, so that its time does not matter.
verify-later :
    (e : Env) (account check_id digest : String) (now later : ℕ)
    → verify_token e account check_id digest now true
      ≡ verify_token e account check_id digest later true
unfolding verify_token
verify-later e account check_id digest now later = refl

-- A later call with the receipt as it now is.
record Answered (e : Env) (db : Db) (w : Settlement) (now : ℕ) (closed : Dict) : Type 0 where
  passed : Passed e db w now
  closed_there : retained (db.authority (check_key passed.part w.check_id)) now ≡ ok closed
  same_row : passed.row ≡ closed

answer :
    (e : Env) (commit : Commit) (db : Db) (summary : Dict → Result Value) (w : Settlement) (now : ℕ)
    (closed : Dict)
    → Answered e db w now closed
    → is_settled closed ≡ true
    → settle e commit db summary w now ≡ ok (receipt_public closed, db)
unfolding settle
answer e commit db summary w now closed a settled =
    let p = a.passed in
    bind-ok _ p.account_ok
    ∙ bind-ok _ p.token_ok
    ∙ bind-ok _ p.part_ok
    ∙ bind-ok _ a.closed_there
    ∙ require-some _ _
        (subst (λ x. text_of (lookup "payloadHmac" x) ≡ some p.digest) a.same_row p.digest_ok)
    ∙ bind-ok _ p.verified
    ∙ raise_if-false _ _ (ap not (subst (λ x. owns w x ≡ true) a.same_row p.owner))
    ∙ raise_if-false _ _ (ap not p.known_outcome)
    ∙ rw settled refl

owns-same :
    (w : Settlement) (row closed : Dict)
    → get "executionToken" closed ≡ get "executionToken" row
    → owns w row ≡ true
    → owns w closed ≡ true
unfolding owns
owns-same w row closed same h = subst (λ o. token_matches w.execution_token o ≡ true) (sym same) h

assert-same :
    (db db' : Db) (account : String)
    → db'.users ≡ db.users
    → db'.deletions ≡ db.deletions
    → assert_account db account ≡ ok tt
    → assert_account db' account ≡ ok tt
unfolding assert_account
assert-same db db' account hu hd h = rw (hu, hd) h

module _ (e : Env) (db db' : Db) (w : Settlement) (now later : ℕ) (t : Token) (part : String)
    (row closed : Dict) (charged : ℕ) (token_ok : token_parts e w.check_id ≡ ok t)
    (part_ok : partition e w.account t.key_id ≡ ok part)
    (row_there : db.authority (check_key part w.check_id) ≡ some row)
    (same_users : db'.users ≡ db.users) (same_deletions : db'.deletions ≡ db.deletions)
    (closed_there : db'.authority (check_key part w.check_id) ≡ some closed)
    (still_retained : retained (some closed) later ≡ ok closed)
    (is_closed : IsClosed charged row closed) where
  same-part : (p : Passed e db w now) → p.part ≡ part
  same-part p =
      let same_token : p.t ≡ t = cc (p.token_ok, token_ok) in
      let found = subst (λ x. partition e w.account x.key_id ≡ ok p.part) same_token p.part_ok in
      cc (found, part_ok)

  same-row : (p : Passed e db w now) → p.row ≡ row
  same-row p =
      let found =
        subst (λ x. db.authority (check_key x w.check_id) ≡ some p.row) (same-part p) p.row_there in
      cc (found, row_there)

  answered : Passed e db w now → Answered e db' w later closed
  answered p =
      let same = same-row p in
      record {
        passed = record {
          t = t;
          part = part;
          row = closed;
          digest = p.digest;
          account_ok = assert-same db db' w.account same_users same_deletions p.account_ok;
          token_ok = token_ok;
          part_ok = part_ok;
          row_there = closed_there;
          digest_ok =
              ap text_of is_closed.same_payload
              ∙ subst (λ x. text_of (lookup "payloadHmac" x) ≡ some p.digest) same p.digest_ok;
          proof = p.proof;
          verified = sym (verify-later e w.account w.check_id p.digest now later) ∙ p.verified;
          owner =
              owns-same w row closed is_closed.same_token
                (subst (λ x. owns w x ≡ true) same p.owner);
          known_outcome = p.known_outcome;
        };
        closed_there = ap (λ o. retained o later) closed_there ∙ still_retained;
        same_row = refl;
      }

-- Once a check was settled, and its receipt is what the settlement wrote, a settlement with the same
-- proof and execution is answered with that receipt, while it is retained and the account's rows are
-- as they were, whatever its summary, and changes no table.
pub settle-once :
    (e : Env) (commit commit' : Commit) (db db' : Db) (summary summary' : Dict → Result Value)
    (w : Settlement) (now later : ℕ) (out : Dict × Db) (t : Token) (part : String)
    (row closed : Dict) (charged : ℕ) (receipt_id : String) (token value : Value) (deadline : ℕ)
    → settle e commit db summary w now ≡ ok out
    → token_parts e w.check_id ≡ ok t
    → partition e w.account t.key_id ≡ ok part
    → db.authority (check_key part w.check_id) ≡ some row
    → written
        (settle_action e.settings part w row charged receipt_id token deadline value now)
        (some row)
      ≡ some closed
    → db'.users ≡ db.users
    → db'.deletions ≡ db.deletions
    → db'.authority (check_key part w.check_id) ≡ some closed
    → retained (some closed) later ≡ ok closed
    → settle e commit' db' summary' w later ≡ ok (receipt_public closed, db')
settle-once e commit commit' db db' summary summary' w now later out t part row closed charged
      receipt_id token value deadline first ht hp hr wrote hu hd hc still =
    let c =
      settle_action-IsClosed e.settings part w row closed charged receipt_id token value deadline
        now wrote in
    let p = (settle-Passed e commit db summary w now).at out first in
    answer e commit' db' summary' w later closed
      (answered e db db' w now later t part row closed charged ht hp hr hu hd hc still c p)
      c.settled

-- ===== src/Authority/Session/Closes.antt =====
-- A preparation that was closed is never admitted, and one that was issued can be closed.
use amt_trust_check_radar_la.Base.{
  ℕ, ◌<◌, String, true, false, Option, some, List, [], ◌∷◌, ◌≡◌, refl, ◌∙◌, ap, sym, subst, str_eq,
  eq_refl, ok, Ensures-bind, Ensures-ok, arith,
}
use amt_trust_check_radar_la.Python.{
  Value, null, value_or, integral, text, Dict, end, entry, get, put, lookup, get-put, natural,
  is_text, value_eq, has_key,
}
use amt_trust_check_radar_la.Dynamo.{
  Key, Condition, both, above, Action, put_item, not_exists, equals, key_of, condition_of, holds,
  written, changes, change,
}
use amt_trust_check_radar_la.Dynamo.Puts.{Stored, canceled_in, canceled_in-left, canceled_in-right}
use amt_trust_check_radar_la.Authority.Usage.Row.{number}
use amt_trust_check_radar_la.Authority.Session.Settings.{Settings}
use amt_trust_check_radar_la.Authority.Session.Store.{Db, Env}
use amt_trust_check_radar_la.Authority.Session.Admit.{
  Request, prepare_key, preparation_check, admission, retention_deadline,
}
use amt_trust_check_radar_la.Authority.Session.Prepare.{
  Preparation, open_row, preparation_row, is_preparation, close_action, closable, scope_field,
}
use amt_trust_check_radar_la.Authority.Session.ReceiptFacts.{kept, get-versioned}

some-equal : {a b : Dict} → some a ≡ some b → a ≡ b
some-equal e = cc

closed-state :
    (table part client proof : String) (row after : Dict) (now : ℕ)
    → written (close_action table part client proof row now) (some row) ≡ some after
    → get "admissionState" after ≡ some (text "CLOSED")
unfolding close_action changes change
closed-state table part client proof row after now h =
    subst (λ d. get "admissionState" d ≡ some (text "CLOSED")) (some-equal h) (simp get-put)

close_action-key :
    (table part client proof : String) (row : Dict) (now : ℕ)
    → key_of (close_action table part client proof row now) ≡ prepare_key part client
unfolding close_action
close_action-key table part client proof row now = refl

preparation_check-canceled :
    (table part client digest : String) (read : Key → Option Dict) (r : Request) (after : Dict)
    (later : ℕ)
    → get "admissionState" after ≡ some (text "CLOSED")
    → read (prepare_key part client) ≡ some after
    → r.client_check_id ≡ some client
    → canceled_in table read (preparation_check table part r digest later) ≡ true
unfolding preparation_check holds value_eq
preparation_check-canceled table part client digest read r after later state stored named =
    rw named (ground (arith, state, stored, eq_refl table))

-- Once the preparation of a client's check was closed and its row is as the closing wrote it, the
-- transaction of every admission of that check is canceled, whatever it was computed from, and whatever
-- its check id, its payload and its time.
pub close_action-excludes :
    (e : Env) (before now_there : Db) (account part client proof digest execution_token : String)
    (r : Request) (row after receipt : Dict) (items : List Action) (now later : ℕ)
    → written (close_action e.settings.authority_table part client proof row now) (some row)
      ≡ some after
    → now_there.authority
        (key_of (close_action e.settings.authority_table part client proof row now))
      ≡ some after
    → r.client_check_id ≡ some client
    → admission e before account part r digest execution_token later ≡ ok (receipt, items)
    → canceled_in e.settings.authority_table now_there.authority items ≡ true
unfolding admission
close_action-excludes e before now_there account part client proof digest execution_token r row
      after receipt items now later wrote stored named =
    let table = e.settings.authority_table in
    let state = closed-state table part client proof row after now wrote in
    let at_key = close_action-key table part client proof row now in
    let canceled =
      preparation_check-canceled table part client digest now_there.authority r after later state
        (ap now_there.authority (sym at_key) ∙ stored) named in
    (Ensures-bind _ _ λ d hd. Ensures-bind _ _ λ g hg. Ensures-bind _ _ λ new hn.
        Ensures-bind _ _ λ conditions hc. Ensures-bind _ _ λ reserved hr.
          Ensures-ok
            {P = λ (x : Dict × List Action). canceled_in table now_there.authority x.1 ≡ true} _
            (canceled_in-left table now_there.authority _ _ (
              canceled_in-left table now_there.authority _ reserved
                (canceled_in-right table now_there.authority conditions _ canceled)))).at
      (receipt, items)

get-scope_field :
    (k : String) (payload row : Dict)
    → str_eq "projectionScope" k ≡ false
    → get k (scope_field payload row) ≡ get k row
get-scope_field k payload row h = ground (
  arith,
  get-put "projectionScope" k (text "sanitized_message") row,
  get-put "projectionScope" k (text "recovery_clarification") row,
  get-put "projectionScope" k (text "recovery_clarification")
      (put "projectionScope" (text "sanitized_message") row),
)

get-preparation_row :
    (k : String) (s : Settings) (part : String) (r : Preparation) (digest check_id : String)
    (now : ℕ)
    → kept k ≡ true
    → str_eq "projectionScope" k ≡ false
    → get k (preparation_row s part r digest check_id now)
      ≡ get k (open_row s part r digest check_id now)
unfolding preparation_row
get-preparation_row k s part r digest check_id now h scope =
    get-versioned k r.payload _ h ∙ get-scope_field k r.payload _ scope

is_text_itself : (t : String) → is_text t (text t) ≡ true
is_text_itself t = simp eq_refl

has_key-get : (k : String) (d : Dict) (v : Value) → get k d ≡ some v → has_key k d ≡ true
has_key-get k end v h = cc
has_key-get k (entry j w d) v h = ground (arith, has_key-get k d v)

preparation_row-recognized :
    (s : Settings) (part : String) (r : Preparation) (digest check_id client : String)
    (now later : ℕ)
    → r.client_check_id ≡ some client
    → later < retention_deadline s now
    → is_preparation client check_id (preparation_row s part r digest check_id now) later ≡ true
unfolding is_preparation open_row natural
preparation_row-recognized s part r digest check_id client now later named early =
    let kind = get-preparation_row "recordType" s part r digest check_id now refl refl in
    let owner = get-preparation_row "clientCheckId" s part r digest check_id now refl refl in
    let proof = get-preparation_row "checkId" s part r digest check_id now refl refl in
    let expiry = get-preparation_row "expiresAt" s part r digest check_id now refl refl in
    let state = get-preparation_row "admissionState" s part r digest check_id now refl refl in
    rw (kind, owner, proof, expiry, state, named)
      (ground (arith, is_text_itself client, is_text_itself check_id))

holds-equals :
    (k : String) (v : Value) (row : Dict)
    → get k row ≡ some v
    → value_eq v v ≡ true
    → holds (equals k v) (some row) ≡ true
unfolding holds
holds-equals k v row h same = rw (has_key-get k row v h, h) same

text_itself : (t : String) → value_eq (text t) (text t) ≡ true
unfolding value_eq
text_itself t = eq_refl t

holds-own :
    (k : String) (v : Value) (row : Dict)
    → get k row ≡ some v
    → value_eq v v ≡ true
    → holds (equals k (lookup k row)) (some row) ≡ true
holds-own k v row h same =
    subst (λ x. holds (equals k x) (some row) ≡ true) (sym (ap (λ o. value_or o null) h))
      (holds-equals k v row h same)

holds-both :
    (c d : Condition) (row : Option Dict)
    → holds c row ≡ true
    → holds d row ≡ true
    → holds (both c d) row ≡ true
unfolding holds
holds-both c d row hc hd = ground arith

number_itself : (n : ℕ) → value_eq (number n) (number n) ≡ true
unfolding value_eq
number_itself n = ground arith

holds-above :
    (k : String) (n now : ℕ) (row : Dict)
    → get k row ≡ some (number n)
    → now < n
    → holds (above k now) (some row) ≡ true
unfolding holds integral
holds-above k n now row h later = rw h (ground arith)

preparation_row-accepted :
    (s : Settings) (table part : String) (r : Preparation) (digest check_id client : String)
    (now later : ℕ)
    → r.client_check_id ≡ some client
    → later < retention_deadline s now
    → holds
        (condition_of (
          close_action table part client check_id
            (preparation_row s part r digest check_id now)
            later))
        (some (preparation_row s part r digest check_id now))
      ≡ true
unfolding open_row close_action
preparation_row-accepted s table part r digest check_id client now later named early =
    let row = preparation_row s part r digest check_id now in
    let kind = get-preparation_row "recordType" s part r digest check_id now refl refl in
    let owner = get-preparation_row "clientCheckId" s part r digest check_id now refl refl in
    let proof = get-preparation_row "checkId" s part r digest check_id now refl refl in
    let payload = get-preparation_row "payloadHmac" s part r digest check_id now refl refl in
    let expiry = get-preparation_row "expiresAt" s part r digest check_id now refl refl in
    let state = get-preparation_row "admissionState" s part r digest check_id now refl refl in
    let client_there : get "clientCheckId" row ≡ some (text client) = owner ∙ rw named refl in
    holds-both _ _ _ (holds-equals "recordType" _ row kind (text_itself "V1_PREPARATION")) (
      holds-both _ _ _ (holds-own "admissionState" _ row state (text_itself "OPEN")) (
        holds-both _ _ _ (holds-equals "checkId" _ row proof (text_itself check_id)) (
          holds-both _ _ _ (holds-own "payloadHmac" _ row payload (text_itself digest)) (
            holds-both _ _ _ (holds-equals "clientCheckId" _ row client_there (text_itself client))
              (holds-both _ _ _ (holds-own "expiresAt" _ row expiry (number_itself _))
                (holds-above "expiresAt" _ later row expiry early))))))

preparation_row-key :
    (s : Settings) (part : String) (r : Preparation) (digest check_id client : String) (now : ℕ)
    → r.client_check_id ≡ some client
    → str_eq client "" ≡ false
    → key_of (
        put_item s.authority_table (preparation_row s part r digest check_id now) (not_exists "PK"))
      ≡ prepare_key part client
unfolding open_row
preparation_row-key s part r digest check_id client now named filled =
    let pk = get-preparation_row "PK" s part r digest check_id now refl refl in
    let sk = get-preparation_row "SK" s part r digest check_id now refl refl in
    rw (pk, sk, named, filled) refl

preparation_row-payload :
    (s : Settings) (part : String) (r : Preparation) (digest check_id : String) (now : ℕ)
    → lookup "payloadHmac" (preparation_row s part r digest check_id now) ≡ text digest
unfolding open_row
preparation_row-payload s part r digest check_id now =
    rw (get-preparation_row "payloadHmac" s part r digest check_id now refl refl) refl

-- what `_close_unadmitted` finds of a preparation
pub record Closable (table part client check_id digest : String) (read : Key → Option Dict)
    (row : Dict) (later : ℕ) : Type 0 where
  pub found : closable client check_id (read (prepare_key part client)) later ≡ some row
  pub payload : lookup "payloadHmac" row ≡ text digest
  pub accepted :
      holds
        (condition_of (close_action table part client check_id row later))
        (read (prepare_key part client))
      ≡ true

-- The row that a new preparation puts for a client is one that `_close_unadmitted` finds and accepts, as
-- long as it is retained: it carries the digest of the payload with which the proof is verified, and the
-- condition of the closing holds of it.
pub preparation_row-Closable :
    (s : Settings) (part : String) (r : Preparation) (digest check_id client : String)
    (read : Key → Option Dict) (now later : ℕ)
    → r.client_check_id ≡ some client
    → str_eq client "" ≡ false
    → Stored s.authority_table read (
        put_item s.authority_table (preparation_row s part r digest check_id now) (not_exists "PK")
        ∷ [])
    → later < retention_deadline s now
    → Closable s.authority_table part client check_id digest read
        (preparation_row s part r digest check_id now)
        later
preparation_row-Closable s part r digest check_id client read now later named filled stored early =
    let row = preparation_row s part r digest check_id now in
    let there : read (prepare_key part client) ≡ some row =
      ap read (sym (preparation_row-key s part r digest check_id client now named filled))
      ∙ stored.0 (eq_refl s.authority_table) in
    record {
      found = rw there (
          rw (preparation_row-recognized s part r digest check_id client now later named early)
            refl);
      payload = preparation_row-payload s part r digest check_id now;
      accepted =
          subst
            (λ x.
              holds (condition_of (close_action s.authority_table part client check_id row later)) x
              ≡ true)
            (sym there)
            (preparation_row-accepted s s.authority_table part r digest check_id client now later
              named early);
    }

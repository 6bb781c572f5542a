-- ===== src/Authority/Usage/NewRow.antt =====
-- The rows that purchase_usage.py creates pass its own check.
use amt_trust_check_radar_la.Base.{
  ℕ, ◌+◌, ◌<◌, ◌≡◌, refl, ◌∙◌, ap, not, Bool, true, Option, ok, ◌>>=◌, Ensures-bind, Ensures-ok,
  bind-ok, require-some, raise_if-false, eq_refl, arith,
}
use amt_trust_check_radar_la.Python.{Value, dict, Dict, value_or, natural, same_keys}
use amt_trust_check_radar_la.Dynamo.{Key}
use amt_trust_check_radar_la.Authority.Policy.{retention_seconds}
use amt_trust_check_radar_la.Authority.Usage.Row.{
  Usage, valid_key, bounds, validate, usage_shape, usage_numbers, is_usage_row, expiry_holds,
  effective_access_end, window, usage_row, new_period_usage,
}

-- what `new_period_usage` checks before it makes the row
pub record Created (pointer start finish access : Value) (row : Dict) : Type 0 where
  pub key : Key
  pub start_epoch : ℕ
  pub end_epoch : ℕ
  pub access_end : ℕ
  pub key_ok : valid_key pointer ≡ ok key
  pub bounds_ok : bounds start finish ≡ ok (start_epoch, end_epoch)
  pub access_ok : effective_access_end (window start finish access) ≡ ok access_end
  pub row_made : row ≡ usage_row key start finish access (access_end + retention_seconds)

pub new_period_usage-Created :
    (pointer start finish : Value) (until : Option Value) (row : Dict)
    → new_period_usage pointer start finish until ≡ ok row
    → Created pointer start finish (value_or until finish) row
unfolding new_period_usage
new_period_usage-Created pointer start finish until =
    (Ensures-bind _ _ λ k hk. Ensures-bind _ _ λ se hb. Ensures-bind _ _ λ a ha.
      Ensures-ok _ (record {
        key = k;
        start_epoch = se.0;
        end_epoch = se.1;
        access_end = a;
        key_ok = hk;
        bounds_ok = hb;
        access_ok = ha;
        row_made = refl;
      })).at

shape-new :
    (k : Key) (start finish access : Value) (deadline : ℕ)
    → let row = usage_row k start finish access deadline in usage_shape k (dict row) ≡ ok row
unfolding usage_shape usage_row is_usage_row same_keys natural ◌>>=◌
shape-new k start finish access deadline = simp eq_refl

access-new :
    (k : Key) (start finish access : Value) (deadline : ℕ)
    → effective_access_end (usage_row k start finish access deadline)
      ≡ effective_access_end (window start finish access)
unfolding effective_access_end usage_row
access-new k start finish access deadline = refl

expiry-new :
    (k : Key) (start finish access : Value) (a now : ℕ) (expired : Bool)
    → now < a + retention_seconds
    → let deadline = a + retention_seconds in
      expiry_holds k (usage_row k start finish access deadline) deadline a now expired ≡ true
unfolding expiry_holds usage_row
expiry-new k start finish access a now expired h = simp eq_refl (ground arith)

-- the checked form of a row that was just made
abbrev pub fresh : Key → Dict → ℕ → ℕ → ℕ → Usage
fresh k row s e a = record {
  row = row;
  pointer = k;
  start_epoch = s;
  end_epoch = e;
  access_end = a;
  used_checks = 0;
  reserved_checks = 0;
  expires_at = a + retention_seconds;
}

numbers-new :
    (k : Key) (start finish access : Value) (s e a now : ℕ) (expired : Bool)
    → bounds start finish ≡ ok (s, e)
    → effective_access_end (window start finish access) ≡ ok a
    → now < a + retention_seconds
    → let row = usage_row k start finish access (a + retention_seconds) in
      usage_numbers k row now expired ≡ ok (fresh k row s e a)
unfolding usage_numbers usage_row natural
numbers-new k start finish access s e a now expired hb ha lt =
    bind-ok _ hb
    ∙ require-some _ _ refl
    ∙ require-some _ _ refl
    ∙ require-some _ _ refl
    ∙ raise_if-false _ _ refl
    ∙ bind-ok _ (access-new k start finish access (a + retention_seconds) ∙ ha)
    ∙ raise_if-false _ _ (ap not (expiry-new k start finish access a now expired lt))

-- A new row is valid until its deadline, with both counters at 0.
pub new_period_usage-validate :
    (pointer start finish access : Value) (row : Dict) (now : ℕ) (expired : Bool)
    → (c : Created pointer start finish access row) → now < c.access_end + retention_seconds
    → validate (dict row) pointer now expired
      ≡ ok (fresh c.key row c.start_epoch c.end_epoch c.access_end)
unfolding validate
new_period_usage-validate pointer start finish access row now expired c lt =
    let deadline = c.access_end + retention_seconds in
    rw c.row_made (
      bind-ok _ c.key_ok
      ∙ bind-ok _ (shape-new c.key start finish access deadline)
      ∙ numbers-new c.key start finish access c.start_epoch c.end_epoch c.access_end now expired
          c.bounds_ok c.access_ok lt)

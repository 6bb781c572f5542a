-- ===== src/Authority/Usage/Writes.antt =====
-- A write of a counter into a usage row that `validate` accepts: the row stays valid while the
-- limit holds, and only that counter changes.
use amt_trust_check_radar_la.Base.{
  ℕ, ◌+◌, ◌≤◌, String, ◌≡◌, refl, sym, subst, Bool, true, some, ok, ◌>>=◌, Ensures, Ensures-bind,
  Ensures-require, Ensures-raise_if, Ensures-ok, bind-ok, arith,
}
use amt_trust_check_radar_la.Python.{
  Value, dict, Dict, put, natural, has_key, get-put, same_keys-put, has_key-natural,
}
use amt_trust_check_radar_la.Dynamo.{Key}
use amt_trust_check_radar_la.Authority.Policy.{paid_completed_checks}
use amt_trust_check_radar_la.Authority.Usage.Row.{
  Usage, valid_key, validate, usage_shape, usage_numbers, is_usage_row, expiry_holds,
  effective_access_end,
}
use amt_trust_check_radar_la.Authority.Usage.RowFacts.{validate-IsSound}

pub data Counter : Type 0 where
  used reserved : Counter

abbrev pub name : Counter → String
name used = "usedChecks"
name reserved = "reservedChecks"

pub access-put :
    (c : Counter) (v : Value) (d : Dict)
    → effective_access_end (put (name c) v d) ≡ effective_access_end d
unfolding effective_access_end
access-put used v d = simp get-put
access-put reserved v d = simp get-put

usage_row-put :
    (c : Counter) (k : Key) (v : Value) (d : Dict)
    → is_usage_row k (put (name c) v d) ≡ is_usage_row k d
unfolding is_usage_row
usage_row-put used k v d = simp get-put
usage_row-put reserved k v d = simp get-put

expiry-put :
    (c : Counter) (k : Key) (v : Value) (d : Dict) (e a now : ℕ) (x : Bool)
    → expiry_holds k (put (name c) v d) e a now x ≡ expiry_holds k d e a now x
unfolding expiry_holds
expiry-put used k v d e a now x = simp get-put
expiry-put reserved k v d e a now x = simp get-put

shape-put :
    (c : Counter) (k : Key) (v : Value) (d e : Dict)
    → has_key (name c) d ≡ true
    → usage_shape k (dict d) ≡ ok e
    → usage_shape k (dict (put (name c) v d)) ≡ ok (put (name c) v d)
unfolding usage_shape ◌>>=◌
shape-put used k v d e h s =
    simp (get-put, same_keys-put _ v d _ h, usage_row-put used k v d) (ground arith)
shape-put reserved k v d e h s =
    simp (get-put, same_keys-put _ v d _ h, usage_row-put reserved k v d) (ground arith)

-- the checked row with one counter written
abbrev pub write_reserved : Value → ℕ → Usage → Usage
write_reserved v r u = record u { row = put "reservedChecks" v u.row; reserved_checks = r }

abbrev pub write_used : Value → ℕ → Usage → Usage
write_used v n u = record u { row = put "usedChecks" v u.row; used_checks = n }

module _ (k : Key) (d : Dict) (now : ℕ) (expired : Bool) (u : Usage) where
  numbers-put_reserved :
      (v : Value) (r : ℕ)
      → usage_numbers k d now expired ≡ ok u
      → natural v ≡ some r
      → u.used_checks + r ≤ paid_completed_checks
      → usage_numbers k (put "reservedChecks" v d) now expired ≡ ok (write_reserved v r u)
  unfolding usage_numbers ◌>>=◌
  numbers-put_reserved v r h hv le =
      simp (get-put, access-put reserved v d, expiry-put reserved, hv) (ground arith)

  numbers-put_used :
      (v : Value) (n : ℕ)
      → usage_numbers k d now expired ≡ ok u
      → natural v ≡ some n
      → n + u.reserved_checks ≤ paid_completed_checks
      → usage_numbers k (put "usedChecks" v d) now expired ≡ ok (write_used v n u)
  unfolding usage_numbers ◌>>=◌
  numbers-put_used v n h hv le =
      simp (get-put, access-put used v d, expiry-put used, hv) (ground arith)

-- the parts that a successful `validate` is made of
pub record Parts (now : ℕ) (expired : Bool) (row pointer : Value) (u : Usage) : Type 0 where
  pub key : Key
  pub key_ok : valid_key pointer ≡ ok key
  pub shape_ok : usage_shape key row ≡ ok u.row
  pub numbers_ok : usage_numbers key u.row now expired ≡ ok u
  pub row_dict : row ≡ dict u.row

shape-dict : (k : Key) (row : Value) (d : Dict) → usage_shape k row ≡ ok d → row ≡ dict d
unfolding usage_shape ◌>>=◌
shape-dict k row d h = ground arith

numbers-row :
    (k : Key) (d : Dict) (now : ℕ) (expired : Bool)
    → Ensures (λ u. u.row ≡ d) (usage_numbers k d now expired)
unfolding usage_numbers
numbers-row k d now expired = Ensures-bind _ _ λ se hb. Ensures-require _ _ _ λ n hu.
    Ensures-require _ _ _ λ r hr. Ensures-require _ _ _ λ e he.
      Ensures-raise_if _ _ _
        λ hl. Ensures-bind _ _ λ a ha. Ensures-raise_if _ _ _ λ hx. Ensures-ok _ refl

pub validate-Parts :
    (row pointer : Value) (now : ℕ) (expired : Bool) (u : Usage)
    → validate row pointer now expired ≡ ok u
    → Parts now expired row pointer u
unfolding validate
validate-Parts row pointer now expired =
    (Ensures-bind _ _ λ k hk. Ensures-bind _ _ λ d hd. record {
      at = λ u hu.
          let same = (numbers-row k d now expired).at u hu in
          record {
            key = k;
            key_ok = hk;
            shape_ok = rw same hd;
            numbers_ok = subst (λ x. usage_numbers k x now expired ≡ ok u) (sym same) hu;
            row_dict = rw same (shape-dict k row d hd);
          };
    }).at

module _ (row pointer : Value) (now : ℕ) (expired : Bool) (u : Usage) where
  -- Reserving up to the limit, and releasing, keep the row valid.
  pub validate-write_reserved :
      (v : Value) (r : ℕ)
      → validate row pointer now expired ≡ ok u
      → natural v ≡ some r
      → u.used_checks + r ≤ paid_completed_checks
      → validate (dict (put "reservedChecks" v u.row)) pointer now expired
        ≡ ok (write_reserved v r u)
  unfolding validate
  validate-write_reserved v r h hv le =
      let p = validate-Parts row pointer now expired u h in
      let sound = validate-IsSound row pointer now expired u h in
      let there = has_key-natural "reservedChecks" u.row u.reserved_checks sound.reserved_read in
      rw
        (
          bind-ok _ p.key_ok,
          bind-ok _ (shape-put reserved p.key v u.row u.row there (rw (← p.row_dict) p.shape_ok)),
        )
        (numbers-put_reserved p.key u.row now expired u v r p.numbers_ok hv le)

  pub validate-write_used :
      (v : Value) (n : ℕ)
      → validate row pointer now expired ≡ ok u
      → natural v ≡ some n
      → n + u.reserved_checks ≤ paid_completed_checks
      → validate (dict (put "usedChecks" v u.row)) pointer now expired ≡ ok (write_used v n u)
  unfolding validate
  validate-write_used v n h hv le =
      let p = validate-Parts row pointer now expired u h in
      let sound = validate-IsSound row pointer now expired u h in
      let there = has_key-natural "usedChecks" u.row u.used_checks sound.used_read in
      rw
        (
          bind-ok _ p.key_ok,
          bind-ok _ (shape-put used p.key v u.row u.row there (rw (← p.row_dict) p.shape_ok)),
        )
        (numbers-put_used p.key u.row now expired u v n p.numbers_ok hv le)

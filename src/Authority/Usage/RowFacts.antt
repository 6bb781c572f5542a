-- ===== src/Authority/Usage/RowFacts.antt =====
-- What `validate` of purchase_usage.py guarantees of a row, and that new rows pass it.
use amt_trust_check_radar_la.Base.{
  ℕ, ◌+◌, ◌≤◌, ◌<◌, ◌≡◌, Bool, false, some, ok, ◌>>=◌, Ensures, Ensures-bind, Ensures-require,
  Ensures-raise_if, Ensures-ok, arith,
}
use amt_trust_check_radar_la.Python.{Value, Dict, lookup, natural}
use amt_trust_check_radar_la.Authority.Policy.{paid_completed_checks, retention_seconds}
use amt_trust_check_radar_la.Dynamo.{Key}
use amt_trust_check_radar_la.Authority.Usage.Row.{
  Usage, validate, usage_numbers, expiry_holds, effective_access_end, bounds,
}

-- the numbers of a checked row, and that they are the row's own
pub record IsSound (now : ℕ) (allow_expired : Bool) (u : Usage) : Type 0 where
  pub funded : u.start_epoch < u.end_epoch
  pub open_from_start : u.start_epoch ≤ u.access_end
  pub within_limit : u.used_checks + u.reserved_checks ≤ paid_completed_checks
  pub retained : u.expires_at ≡ u.access_end + retention_seconds
  pub used_read : natural (lookup "usedChecks" u.row) ≡ some u.used_checks
  pub reserved_read : natural (lookup "reservedChecks" u.row) ≡ some u.reserved_checks
  pub access_read : effective_access_end u.row ≡ ok u.access_end
  pub live : allow_expired ≡ false → now < u.expires_at

bounds-lt :
    (s e : Value) (a b : ℕ)
    → bounds s e ≡ ok (a, b)
    → (natural s ≡ some a) × (natural e ≡ some b) × (a < b)
unfolding bounds ◌>>=◌
bounds-lt s e a b h = ground arith

access-read :
    (d : Dict) (a : ℕ)
    → effective_access_end d ≡ ok a
    → (s : ℕ) × (natural (lookup "startEpoch" d) ≡ some s) × (s ≤ a)
unfolding effective_access_end ◌>>=◌
access-read d a h = ground arith

usage_numbers-IsSound :
    (k : Key) (d : Dict) (now : ℕ) (allow_expired : Bool)
    → Ensures (IsSound now allow_expired) (usage_numbers k d now allow_expired)
unfolding usage_numbers expiry_holds
usage_numbers-IsSound k d now allow_expired = Ensures-bind _ _ λ se hb.
    Ensures-require _ _ _ λ used hu. Ensures-require _ _ _ λ reserved hr.
      Ensures-require _ _ _ λ expires he. Ensures-raise_if _ _ _ λ hl. Ensures-bind _ _ λ access ha.
        Ensures-raise_if _ _ _ λ hx.
          Ensures-ok _
            let (starts, ends, lt) = bounds-lt _ _ se.0 se.1 hb in
              let (s, starts', le) = access-read d access ha in
              record {
                funded = lt;
                open_from_start = ground arith;
                within_limit = ground arith;
                retained = ground arith;
                used_read = hu;
                reserved_read = hr;
                access_read = ha;
                live = ground arith;
              }

-- A row that `validate` accepts is sound, whatever the schema version.
pub validate-IsSound :
    (row pointer : Value) (now : ℕ) (allow_expired : Bool) (u : Usage)
    → validate row pointer now allow_expired ≡ ok u
    → IsSound now allow_expired u
unfolding validate
validate-IsSound row pointer now allow_expired =
    (Ensures-bind _ _
      λ k hk. Ensures-bind _ _ λ d hd. usage_numbers-IsSound k d now allow_expired).at

-- ===== src/Authority/Usage/PeriodWrites.antt =====
-- A write of the counters into a local period row: it stays valid while the limit holds.
use amt_trust_check_radar_la.Base.{
  ℕ, ◌+◌, ◌≤◌, ◌≡◌, some, ok, ◌>>=◌, Ensures, Ensures-bind, Ensures-require, Ensures-raise_if,
  Ensures-ok, arith,
}
use amt_trust_check_radar_la.Python.{Value, Dict, put, lookup, natural, get-put}
use amt_trust_check_radar_la.Authority.Policy.{paid_completed_checks}
use amt_trust_check_radar_la.Authority.Usage.Row.{valid_key}
use amt_trust_check_radar_la.Authority.Usage.Writes.{Counter, used, reserved, name, access-put}
use amt_trust_check_radar_la.Authority.Usage.Actions.{Period, is_period_row, validate_period}

period_row-put :
    (c : Counter) (v : Value) (d : Dict) → is_period_row (put (name c) v d) ≡ is_period_row d
unfolding is_period_row
period_row-put used v d = simp get-put
period_row-put reserved v d = simp get-put

-- the numbers of a checked period are the row's own
pub record IsSoundPeriod (row : Dict) (p : Period) : Type 0 where
  pub same_row : p.row ≡ row
  pub within_limit : p.used_checks + p.reserved_checks ≤ paid_completed_checks
  pub used_read : natural (lookup "usedChecks" row) ≡ some p.used_checks
  pub reserved_read : natural (lookup "reservedChecks" row) ≡ some p.reserved_checks
  pub pointer_read : valid_key (lookup "purchaseUsageKey" row) ≡ ok p.pointer

pub validate_period-IsSound :
    (row : Dict) → Ensures (IsSoundPeriod row) (validate_period (some row))
unfolding validate_period
validate_period-IsSound row = Ensures-require _ _ _ λ d hd. Ensures-raise_if _ _ _ λ hp.
    Ensures-require _ _ _ λ revision hv. Ensures-raise_if _ _ _ λ hz. Ensures-require _ _ _ λ n hu.
      Ensures-require _ _ _ λ r hr. Ensures-raise_if _ _ _ λ hl. Ensures-bind _ _ λ se hb.
        Ensures-bind _ _ λ a ha. Ensures-bind _ _ λ k hk. Ensures-ok _ (record {
          same_row = cc;
          within_limit = ground arith;
          used_read = cc;
          reserved_read = cc;
          pointer_read = cc;
        })

module _ (row : Dict) (p : Period) (v : Value) (n : ℕ) where
  pub validate_period-put_reserved :
      validate_period (some row) ≡ ok p
      → natural v ≡ some n
      → p.used_checks + n ≤ paid_completed_checks
      → validate_period (some (put "reservedChecks" v row))
        ≡ ok (record p { row = put "reservedChecks" v row; reserved_checks = n })
  unfolding validate_period ◌>>=◌
  validate_period-put_reserved h hv le =
      simp (get-put, period_row-put reserved, access-put reserved v row, hv) (ground arith)

  pub validate_period-put_used :
      validate_period (some row) ≡ ok p
      → natural v ≡ some n
      → n + p.reserved_checks ≤ paid_completed_checks
      → validate_period (some (put "usedChecks" v row))
        ≡ ok (record p { row = put "usedChecks" v row; used_checks = n })
  unfolding validate_period ◌>>=◌
  validate_period-put_used h hv le =
      simp (get-put, period_row-put used, access-put used v row, hv) (ground arith)

-- ===== src/Authority/Usage/Gathered.antt =====
-- What `due_reservation_actions` finds of the open reservations, and what it leaves of the purchase.
use mathlib.Core.List.{Mem}
use amt_trust_check_radar_la.Base.{
  ℕ, ◌+◌, ◌-◌, ◌≤◌, ◌≡◌, refl, true, false, Option, none, some, List, ◌∷◌, length, ok, Ensures,
  Bool, ◌||◌, Ensures-ok, Ensures-bind, Ensures-require, Ensures-raise_if, arith,
}
use amt_trust_check_radar_la.Python.{ℤ, pos, of_ℤ, Value, decimal, dict, Dict, lookup, put, natural}
use amt_trust_check_radar_la.Dynamo.{Key, key_dict, Action, delete, put_item}
use amt_trust_check_radar_la.Authority.Policy.{retention_seconds}
use amt_trust_check_radar_la.Authority.Usage.Counters.{agrees}
use amt_trust_check_radar_la.Authority.Usage.Row.{Usage, validate}
use amt_trust_check_radar_la.Authority.Usage.Actions.{Period, validate_period, exact_condition}
use amt_trust_check_radar_la.Authority.Usage.Pending.{Receipt}
use amt_trust_check_radar_la.Authority.Usage.Open.{is_open_of}
use amt_trust_check_radar_la.Authority.Usage.Closing.{
  Remote, lower_inflight, due_reservation_actions, has_next,
}
use amt_trust_check_radar_la.Authority.Usage.Pages.{
  Found, AllClosed, rows_of, close_all-AllClosed, AllChecked, gather_pages-Gathers,
}

-- the write that lowers the counter of the account's open checks by `count`
pub record Lowered (e : Remote) (k : Key) (count : ℕ) (action : Action) : Type 0 where
  pub inflight : Dict
  pub active : ℕ
  pub inflight_read : e.get_item (record { pk = k.pk; sk = "INFLIGHT" }) ≡ some inflight
  pub active_read : natural (lookup "activeCount" inflight) ≡ some active
  pub enough : count ≤ active
  pub write :
      action
      ≡ put_item e.table
          (put "activeCount" (decimal (pos (active - count))) inflight)
          (exact_condition inflight)

lower_inflight-Lowered :
    (e : Remote) (k : Key) (count : ℕ) → Ensures (Lowered e k count) (lower_inflight e k count)
unfolding lower_inflight
lower_inflight-Lowered e k count = Ensures-require _ _ _ λ d hd. Ensures-raise_if _ _ _ λ hk.
    Ensures-require _ _ _ λ n hn. Ensures-raise_if _ _ _ λ hb. Ensures-ok _ (record {
      inflight = d;
      active = n;
      inflight_read = hd;
      active_read = hn;
      enough = ground arith;
      write = refl;
    })

-- the closing of a purchase
pub record Closed (e : Remote) (k : Key) (period : Dict) (global : Value) (access : ℤ) (now : ℕ)
    (actions : List Action) : Type 0 where
  pub local_period : Period
  pub usage : Usage
  pub until : ℕ
  pub counter : Action
  pub receipts : List Receipt
  pub closures : List Action
  pub period_valid : validate_period (some period) ≡ ok local_period
  pub usage_valid : validate global (dict (key_dict local_period.pointer)) now true ≡ ok usage
  pub until_read : of_ℤ access ≡ some until
  pub due : until + retention_seconds ≤ now
  pub agreed : agrees usage local_period ≡ true
  pub writes :
      actions ≡ delete e.table local_period.pointer (exact_condition usage.row) ∷ counter ∷ closures
  pub lowered : Lowered e k local_period.reserved_checks counter
  pub counted : length receipts ≡ local_period.reserved_checks
  pub all_closed : AllClosed k now receipts closures
  pub all_checked : AllChecked e k local_period now receipts
  pub every_open :
      (row : Dict)
      → Found e.query row none
      → is_open_of k local_period row ≡ true
      → Mem row (rows_of receipts)

no_next : (e : Remote) (c : Option Dict) (b : Bool) → has_next e c || b ≡ false → c ≡ none
no_next e none b h = refl
no_next e (some c) b h = cc

-- Where the closing of a purchase returns, the period and the global row are valid and agree, the new end of
-- access is past its deadline, and the actions erase the global row, lower the counter of open checks by the
-- reserved checks of the period, and close that many receipts without a charge. Each of them passed its
-- tests, and every open row of the query's pages is among them.
pub due_reservation_actions-Closed :
    (e : Remote) (k : Key) (period : Dict) (global : Value) (access : ℤ) (now : ℕ)
    (actions : List Action)
    → due_reservation_actions e k period global access now ≡ ok actions
    → Closed e k period global access now actions
unfolding due_reservation_actions
due_reservation_actions-Closed e k period global access now actions h =
    Ensures.at {P = Closed e k period global access now}
      (Ensures-bind _ _ λ p hp. Ensures-bind _ _ λ u hu. Ensures-bind _ _ λ fresh hf.
        Ensures-require _ _ _ λ a ha. Ensures-raise_if _ _ _ λ hd. Ensures-bind _ _ λ found hg.
          Ensures-raise_if _ _ _ λ hc. Ensures-bind _ _ λ counter hl.
            Ensures-bind _ _ λ closures hs.
              let g = (gather_pages-Gathers e k p now).at found hg in
              Ensures-ok _ (record {
                local_period = p;
                usage = u;
                until = a;
                counter = counter;
                receipts = found.0;
                closures = closures;
                period_valid = hp;
                usage_valid = hu;
                until_read = ha;
                due = ground arith;
                agreed = ground arith;
                writes = refl;
                lowered = (lower_inflight-Lowered e k p.reserved_checks).at counter hl;
                counted = ground arith;
                all_closed = (close_all-AllClosed e k now found.0).at closures hs;
                all_checked = g.checked;
                every_open = g.every_open (no_next e found.1 _ hc);
              }))
      actions h

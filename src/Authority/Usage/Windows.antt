-- ===== src/Authority/Usage/Windows.antt =====
-- What `access_window_actions` and `funding_actions` of purchase_usage.py do to the global row.
use amt_trust_check_radar_la.Base.{
  ℕ, ◌+◌, ◌≤◌, ◌<◌, String, ◌≡◌, refl, true, false, none, some, ok, List, [], ◌∷◌, leb, ◌==◌, ◌>>=◌,
  Ensures, Ensures-bind, Ensures-require, Ensures-raise_if, Ensures-ok, Ensures-err, Ensures-if,
  arith,
}
use amt_trust_check_radar_la.Python.{
  ℤ, pos, of_ℤ-some, Value, int, dict, Dict, put, lookup, natural, value_eq,
}
use amt_trust_check_radar_la.Dynamo.{Action, written}
use amt_trust_check_radar_la.Authority.Policy.{retention_seconds}
use amt_trust_check_radar_la.Authority.Usage.Row.{Usage, validate, effective_access_end}
use amt_trust_check_radar_la.Authority.Usage.RowFacts.{IsSound, validate-IsSound}
use amt_trust_check_radar_la.Authority.Usage.Writes.{
  write_reserved, write_used, validate-write_reserved, validate-write_used,
}
use amt_trust_check_radar_la.Authority.Usage.NewRow.{
  Created, fresh, new_period_usage-Created, new_period_usage-validate,
}
use amt_trust_check_radar_la.Authority.Usage.Actions.{
  with_counters, window_action, access_window_actions,
}

-- the one action, by what it does: `u` is the row as it was read, `access` the new end of the window
pub data Windowed (pointer : Value) (u : Usage) (access now : ℕ) (acts : List Action) : Type 0 where
  -- the new deadline has passed and nothing is reserved
  erased :
      (act : Action)
      → acts ≡ act ∷ []
      → written act (some u.row) ≡ none
      → u.reserved_checks ≡ 0
      → access + retention_seconds ≤ now
      → Windowed pointer u access now acts
  -- the row is the proposed one already
  unchanged :
      (act : Action)
      → acts ≡ act ∷ []
      → written act (some u.row) ≡ some u.row
      → now < access + retention_seconds
      → Windowed pointer u access now acts
  -- a valid row with the new window and the old counters
  replaced :
      (act : Action) (after : Usage)
      → acts ≡ act ∷ []
      → written act (some u.row) ≡ some after.row
      → validate (dict after.row) pointer now false ≡ ok after
      → (after.access_end ≡ access)
        × (after.used_checks ≡ u.used_checks)
        × (after.reserved_checks ≡ u.reserved_checks)
      → Windowed pointer u access now acts

module _ (pointer : Value) (u : Usage) (row : Dict) (now access : ℕ)
    (created : Created pointer
      (lookup "startEpoch" u.row)
      (lookup "endEpoch" u.row)
      (int (pos access))
      row)
    (sound : IsSound now true u) where
  access_as_given : created.access_end ≡ access
  unfolding effective_access_end natural ◌>>=◌
  access_as_given = let h = created.access_ok in ground arith

  -- the proposed row with the old counters
  after_window : Usage
  after_window = write_reserved (lookup "reservedChecks" u.row) u.reserved_checks (
      write_used (lookup "usedChecks" u.row) u.used_checks
        (fresh created.key row created.start_epoch created.end_epoch created.access_end))

  proposed-valid :
      now < access + retention_seconds
      → validate (dict (with_counters u row)) pointer now false ≡ ok after_window
  unfolding with_counters after_window
  proposed-valid lt =
      let new = fresh created.key row created.start_epoch created.end_epoch created.access_end in
      let made =
        new_period_usage-validate pointer _ _ _ row now false created
          (omega (arith, access_as_given)) in
      let counted =
        validate-write_used (dict row) pointer now false new (lookup "usedChecks" u.row)
          u.used_checks made sound.used_read (let l = sound.within_limit in omega arith) in
      validate-write_reserved (dict (put "usedChecks" (lookup "usedChecks" u.row) row)) pointer now
        false (write_used (lookup "usedChecks" u.row) u.used_checks new)
        (lookup "reservedChecks" u.row) u.reserved_checks counted sound.reserved_read
        sound.within_limit

  window_action-Windowed :
      (table : String)
      → Ensures
          (Windowed pointer u access now)
          (window_action table u (with_counters u row) access now)
  unfolding window_action after_window with_counters
  window_action-Windowed table =
      Ensures-if (leb (access + retention_seconds) now) _ _
        (λ due.
          Ensures-if (u.reserved_checks == 0) _ _
            (λ empty. Ensures-ok _ (erased _ refl refl (ground arith) (ground arith)))
            (λ busy. Ensures-err _))
        (λ early.
          Ensures-if (value_eq (dict (with_counters u row)) (dict u.row)) _ _
            (λ same. Ensures-ok _ (unchanged _ refl refl (ground arith)))
            (λ differ. Ensures-ok _ (
              replaced _ after_window refl refl (proposed-valid (ground arith))
                (access_as_given, refl, refl))))

-- Every accepted change of an access window erases a row that is due and free of reservations,
-- leaves the row alone, or writes a valid row with the new window and the same counters; and a
-- window is never extended once the row has expired.
pub access_window_actions-Windowed :
    (table : String) (pointer observed_global : Value) (access_until : ℤ) (now : ℕ)
    (acts : List Action)
    → access_window_actions table pointer observed_global access_until now ≡ ok acts
    → (u : Usage) × (access : ℕ) × (validate observed_global pointer now true ≡ ok u)
      × (access_until ≡ pos access)
      × (u.access_end < access → now < u.expires_at)
      × Windowed pointer u access now acts
unfolding access_window_actions
access_window_actions-Windowed table pointer observed_global access_until now =
    (Ensures-bind _ _ λ u hu. Ensures-bind _ _ λ row hrow. Ensures-require _ _ _ λ access ha.
      Ensures-raise_if _ _ _ λ hx. record {
        at = λ acts h. (
          u,
          access,
          hu,
          of_ℤ-some access_until access ha,
          ground arith,
          (window_action-Windowed pointer u row now access
                (rw (of_ℤ-some access_until access ha) at
                  (new_period_usage-Created pointer _ _ _ row hrow))
                (validate-IsSound observed_global pointer now true u hu) table).at
              acts h,
        );
      }).at

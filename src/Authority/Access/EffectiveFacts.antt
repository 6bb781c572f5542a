-- ===== src/Authority/Access/EffectiveFacts.antt =====
-- The writer and the reader of access rows agree: `_grant` accepts exactly the rows that `_effective`
-- makes active, at the time at which they were made.
use amt_trust_check_radar_la.Base.{
  ℕ, String, ◌≡◌, true, false, Option, none, some, ok, err, ◌>>=◌, if◌then◌else◌, Bool-cases, inl,
  inr, arith,
}
use amt_trust_check_radar_la.Python.{Dict, natural}
use amt_trust_check_radar_la.Authority.Policy.{Result, external_access_unavailable}
use amt_trust_check_radar_la.Authority.Grant.{
  Basis, paid, trial, complimentary, access_basis, is_access_row, in_force, basis_of,
}
use amt_trust_check_radar_la.Authority.Access.Effective.{
  source_of, in_force_now, source_in_force, effective, inactive_row, with_window, with_period,
  with_activation, window_row, period_row, activation_row,
}

-- the basis of the access row, by the sources alone
abbrev pub first_in_force : Dict → ℕ → Result Basis
first_in_force sources now =
    if in_force_now true (source_of "complimentary" sources) now
    then ok complimentary
    else if in_force_now false (source_of "paid" sources) now
    then ok paid
    else if in_force_now false (source_of "trial" sources) now
    then ok trial
    else err external_access_unavailable

module _ (now : ℕ) (pk : String) (old : Option Dict) (sources : Dict) where
  free_row :
      (source : Dict)
      → source_in_force true source now ≡ true
      → access_basis (some (with_window "complimentary" source (inactive_row pk old sources))) now
        ≡ ok complimentary
  unfolding access_basis is_access_row in_force basis_of source_in_force inactive_row natural ◌>>=◌
  free_row source h = ground arith

  paid_row :
      (source : Dict)
      → source_in_force false source now ≡ true
      → access_basis
          (some (with_period source (with_window "paid" source (inactive_row pk old sources))))
          now
        ≡ ok paid
  unfolding access_basis is_access_row in_force basis_of source_in_force inactive_row natural ◌>>=◌
  paid_row source h = ground arith

  trial_row :
      (source : Dict)
      → source_in_force false source now ≡ true
      → access_basis
          (some (
            with_activation source
              (with_period source (with_window "trial" source (inactive_row pk old sources)))))
          now
        ≡ ok trial
  unfolding access_basis is_access_row in_force basis_of source_in_force inactive_row natural ◌>>=◌
  trial_row source h = ground arith

  idle_row : access_basis (some (inactive_row pk old sources)) now ≡ err external_access_unavailable
  unfolding access_basis is_access_row in_force basis_of inactive_row natural ◌>>=◌
  idle_row = ground arith

  free_case :
      (s : Option Dict)
      → in_force_now true s now ≡ true
      → access_basis (some (window_row "complimentary" s (inactive_row pk old sources))) now
        ≡ ok complimentary
  free_case none h = cc
  free_case (some s) h = free_row s h

  paid_case :
      (s : Option Dict)
      → in_force_now false s now ≡ true
      → access_basis (some (period_row s (window_row "paid" s (inactive_row pk old sources)))) now
        ≡ ok paid
  paid_case none h = cc
  paid_case (some s) h = paid_row s h

  trial_case :
      (s : Option Dict)
      → in_force_now false s now ≡ true
      → access_basis
          (some
            (activation_row s (period_row s (window_row "trial" s (inactive_row pk old sources)))))
          now
        ≡ ok trial
  trial_case none h = cc
  trial_case (some s) h = trial_row s h

  -- `_grant` finds in the row that `_effective` writes the first source in force, in the order
  -- complimentary, paid, trial, and refuses the row when no source is in force.
  pub access_basis-effective :
      access_basis (some (effective now pk old sources)) now ≡ first_in_force sources now
  unfolding effective
  access_basis-effective =
      let free = source_of "complimentary" sources in
      let bought = source_of "paid" sources in
      let tried = source_of "trial" sources in
      elim (Bool-cases (in_force_now true free now)) [
        | inl a ↦ rw a (free_case free a)
        | inr a ↦ elim (Bool-cases (in_force_now false bought now)) [
          | inl b ↦ rw (a, b) (paid_case bought b)
          | inr b ↦ elim (Bool-cases (in_force_now false tried now)) [
            | inl c ↦ rw (a, b, c) (trial_case tried c)
            | inr c ↦ rw (a, b, c) idle_row
          ]
        ]
      ]

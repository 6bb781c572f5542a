-- ===== src/Authority/Access/SourcesFacts.antt =====
-- What valid sources give: windows that are in order, trials of exactly seven days, and access rows
-- that name a period as `_grant` wants it.
use amt_trust_check_radar_la.Base.{
  ℕ, String, ◌≡◌, refl, true, false, Option, none, some, ok, ◌>>=◌, eq_iff, Bool-cases, inl, inr,
  arith,
}
use amt_trust_check_radar_la.Python.{Value, Dict, end, entry, dict_of, natural}
use amt_trust_check_radar_la.Authority.Grant.{Basis, paid, trial, complimentary, is_trial_window}
use amt_trust_check_radar_la.Authority.Access.Effective.{
  source_of, truthy_dict, in_force_now, effective, inactive_row, with_window, with_period,
  with_activation, activation_row, period_row, window_row,
}
use amt_trust_check_radar_la.Authority.Access.EffectiveFacts.{first_in_force}
use amt_trust_check_radar_la.Authority.Access.Sources.{
  basis_named, check_source, source_valid, validate_sources, window_valid, period_valid,
}

check_source-valid :
    (b : Basis) (v : Value) (s : Dict)
    → check_source b v ≡ ok tt
    → truthy_dict (dict_of v) ≡ some s
    → source_valid b s ≡ true
unfolding check_source ◌>>=◌
check_source-valid b v s h e = ground arith

-- Each source that is found among valid sources has a valid form.
pub validate_sources-found :
    (name : String) (sources : Dict) (s : Dict)
    → validate_sources sources ≡ ok tt
    → source_of name sources ≡ some s
    → source_valid (basis_named name) s ≡ true
unfolding validate_sources ◌>>=◌
validate_sources-found name end s h e = cc
validate_sources-found name (entry j v d) s h e = ground (
  arith,
  eq_iff j name,
  validate_sources-found name d s,
  check_source-valid (basis_named name) v s,
)

-- what a metered source must give the access row
metered-parts :
    (b : Basis) (s : Dict)
    → source_valid b s ≡ true
    → b ≡ trial
    → (window_valid trial s ≡ true) × (period_valid s ≡ true)
unfolding source_valid
metered-parts trial s h t = ground arith
metered-parts paid s h t = cc
metered-parts complimentary s h t = cc

module _ (now : ℕ) (pk : String) (old : Option Dict) (sources : Dict) where
  trial_row-window :
      (s : Dict)
      → window_valid trial s ≡ true
      → is_trial_window
          (with_activation s (with_period s (with_window "trial" s (inactive_row pk old sources))))
        ≡ true
  unfolding window_valid is_trial_window natural inactive_row
  trial_row-window s h = ground arith

  trial_case :
      (s : Option Dict)
      → ((t : Dict) → s ≡ some t → source_valid trial t ≡ true)
      → in_force_now false s now ≡ true
      → is_trial_window
          (activation_row s (period_row s (window_row "trial" s (inactive_row pk old sources))))
        ≡ true
  trial_case none v h = cc
  trial_case (some s) v h = trial_row-window s (metered-parts trial s (v s refl) refl).0

  -- From valid sources, an access row made for a trial has the window of an explicit activation and
  -- lasts exactly seven days, which is what `_grant` demands of a trial.
  pub effective-trial :
      validate_sources sources ≡ ok tt
      → first_in_force sources now ≡ ok trial
      → is_trial_window (effective now pk old sources) ≡ true
  unfolding effective
  effective-trial v h =
      let free = source_of "complimentary" sources in
      let bought = source_of "paid" sources in
      let tried = source_of "trial" sources in
      elim (Bool-cases (in_force_now true free now)) [
        | inl a ↦ cc (rw a at h)
        | inr a ↦ elim (Bool-cases (in_force_now false bought now)) [
          | inl b ↦ cc (rw (a, b) at h)
          | inr b ↦ elim (Bool-cases (in_force_now false tried now)) [
            | inl c ↦
                rw (a, b, c)
                  (trial_case tried (λ t e. validate_sources-found "trial" sources t v e) c)
            | inr c ↦ cc (rw (a, b, c) at h)
          ]
        ]
      ]

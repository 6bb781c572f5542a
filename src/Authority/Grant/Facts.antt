-- ===== src/Authority/Grant/Facts.antt =====
-- What a granted admission rests on.
use amt_trust_check_radar_la.Base.{
  ℕ, ◌+◌, ◌<◌, String, ◌≡◌, subst, true, false, Option, none, some, ok, Ensures, Ensures-bind,
  Ensures-require, Ensures-raise_if, Ensures-ok, Ensures-if, arith,
}
use amt_trust_check_radar_la.Python.{Dict, lookup, natural}
use amt_trust_check_radar_la.Authority.Usage.Actions.{Read}
use amt_trust_check_radar_la.Authority.Grant.{
  Basis, complimentary, is_complimentary, limit_of, in_force, is_access_row, access_basis,
  Allowance, allowance, Grant, metered, grant,
}

-- the counters of the granted period, which leave room for one more check
abbrev pub HasRoom : Basis → Option Allowance → Type 0
HasRoom b none = b ≡ complimentary
HasRoom b (some a) =
    (natural (lookup "usedChecks" a.row) ≡ some a.used_checks)
    × (natural (lookup "reservedChecks" a.row) ≡ some a.reserved_checks)
    × (a.used_checks + a.reserved_checks < limit_of b)

pub record IsAdmissible (get_item : Read) (partition : String) (now : ℕ) (g : Grant) : Type 0 where
  pub read : get_item (record { pk = partition; sk = "ACCESS" }) ≡ some g.row
  pub access : is_access_row g.row ≡ true
  pub in_time : in_force g.basis g.row now ≡ true
  pub room : HasRoom g.basis g.period

access-parts :
    (row : Option Dict) (now : ℕ)
    → Ensures
        (λ b. (g : Dict) × (row ≡ some g) × (is_access_row g ≡ true) × (in_force b g now ≡ true))
        (access_basis row now)
unfolding access_basis
access-parts row now = Ensures-require _ _ _ λ g hg.
    Ensures-require _ _ _
      λ b hb. Ensures-raise_if _ _ _ λ ha. Ensures-ok _ (g, hg, ground arith, ground arith)

allowance-parts :
    (b : Basis) (revision : ℕ) (period : Option Dict) (now : ℕ)
    → Ensures
        (λ a.
          (natural (lookup "usedChecks" a.row) ≡ some a.used_checks)
          × (natural (lookup "reservedChecks" a.row) ≡ some a.reserved_checks))
        (allowance b revision period now)
unfolding allowance
allowance-parts b revision period now = Ensures-require _ _ _ λ d hd. Ensures-raise_if _ _ _ λ hp.
    Ensures-require _ _ _ λ used hu. Ensures-require _ _ _ λ reserved hr.
      Ensures-raise_if _ _ _ λ hl. Ensures-require _ _ _ λ start hs.
        Ensures-require _ _ _ λ finish he. Ensures-raise_if _ _ _ λ ht. Ensures-ok _ (hu, hr)

module _ (get_item : Read) (partition : String) (now : ℕ) where
  metered-IsAdmissible :
      (b : Basis) (g : Dict)
      → get_item (record { pk = partition; sk = "ACCESS" }) ≡ some g
      → is_access_row g ≡ true
      → in_force b g now ≡ true
      → Ensures (IsAdmissible get_item partition now) (metered get_item partition b g now false)
  unfolding metered
  metered-IsAdmissible b g hg ha ht = Ensures-require _ _ _ λ revision hr.
      Ensures-raise_if _ _ _ λ hz. Ensures-require _ _ _ λ period_id hp.
        Ensures-raise_if _ _ _ λ hm. Ensures-bind _ _ λ a h. Ensures-bind _ _ λ checked hc.
          Ensures-raise_if _ _ _ λ hx.
            let (used, reserved) = (allowance-parts b revision _ now).at a h in
            Ensures-ok _ (record {
              read = hg;
              access = ha;
              in_time = ht;
              room = (used, reserved, ground arith);
            })

  -- What `_grant` returns to an admission rests on an active access row of the policy that is in
  -- force now, and, unless access is complimentary, on counters that leave room for one more check.
  pub grant-IsAdmissible :
      (g : Grant)
      → grant get_item partition now false ≡ ok g
      → IsAdmissible get_item partition now g
  unfolding grant
  grant-IsAdmissible =
      (Ensures-bind _ _ λ b hb. Ensures-require _ _ _ λ g hg.
        let (row, hr, ha, ht) = (access-parts _ now).at b hb in
        let e : row ≡ g = cc (hr, hg) in
        let ha' = subst (λ x. is_access_row x ≡ true) e ha in
        let ht' = subst (λ x. in_force b x now ≡ true) e ht in
        Ensures-if (is_complimentary b) _ _
          (λ free.
            Ensures-ok _ (record { read = hg; access = ha'; in_time = ht'; room = ground arith }))
          (λ counted. metered-IsAdmissible b g hg ha' ht')).at

-- ===== src/Authority/Session/Admitted.antt =====
-- What stands behind the execution token that `admit` hands out.
use amt_trust_check_radar_la.Base.{
  ℕ, String, Bool, true, false, Option, some, none, List, ◌≡◌, refl, ok, Ensures, Ensures-bind,
  Ensures-raise_if, Ensures-ok, Ensures-err, Ensures-if,
}
use amt_trust_check_radar_la.Python.{Dict}
use amt_trust_check_radar_la.Dynamo.{Action}
use amt_trust_check_radar_la.Authority.Grant.{Grant}
use amt_trust_check_radar_la.Authority.Grant.Facts.{IsAdmissible}
use amt_trust_check_radar_la.Authority.Session.Settings.{settings_valid}
use amt_trust_check_radar_la.Authority.Session.Store.{Db, Env, Commit}
use amt_trust_check_radar_la.Authority.Session.Token.{Token}
use amt_trust_check_radar_la.Authority.Session.Admit.{
  Request, Admission, admitted, replayed, receipt_public, check_key, new_receipt, admission, replay,
  recovered, after_admission, same_payload, admit_new, admit,
}
use amt_trust_check_radar_la.Authority.Session.ReceiptFacts.{Opened, new_receipt-Opened}
use amt_trust_check_radar_la.Authority.Session.Reserves.{Proposal, admission-Proposal}

-- the admission behind an execution token: its transaction has returned
pub record Admitted (e : Env) (commit : Commit) (now : ℕ) (receipt : Dict) (after : Db)
    : Type 0 where
  pub part : String
  pub digest : String
  pub row : Dict
  pub before : Db
  pub items : List Action
  pub g : Grant
  pub told : receipt ≡ receipt_public row
  pub committed : commit before items ≡ (true, after)
  pub opened : Opened e.settings digest now row
  pub admissible : IsAdmissible before.authority part now g
  pub proposal : Proposal e.settings part g now row items

abbrev Justified : Env → Commit → ℕ → Admission × Db → Type 0
Justified e commit now (replayed receipt, db) = Unit
Justified e commit now (admitted token receipt, db) = Admitted e commit now receipt db

admission-receipt :
    (e : Env) (db : Db) (account part : String) (r : Request) (digest token : String) (now : ℕ)
    → Ensures
        (λ out. (g : Grant) × (new_receipt e.settings part r digest g token now ≡ ok out.0))
        (admission e db account part r digest token now)
unfolding admission
admission-receipt e db account part r digest token now = Ensures-bind _ _ λ d hd.
    Ensures-bind _ _ λ g hg. Ensures-bind _ _ λ row hr.
      Ensures-bind _ _ λ conditions hc. Ensures-bind _ _ λ reserved hv. Ensures-ok _ (g, hr)

module _ (e : Env) (commit : Commit) (now : ℕ) (valid : settings_valid e.settings ≡ true) where
  replay-Justified :
      (prior : Dict) (digest : String) (db : Db)
      → Ensures (Justified e commit now) (replay prior digest db)
  unfolding replay
  replay-Justified prior digest db = Ensures-raise_if _ _ _ λ h. Ensures-ok _ tt

  recovered-Justified :
      (part digest : String) (db : Db) (prior : Option Dict)
      → Ensures (Justified e commit now) (recovered e.settings part digest db prior)
  unfolding recovered
  recovered-Justified part digest db none = Ensures-err _
  recovered-Justified part digest db (some prior) =
      Ensures-if (same_payload prior digest) _ _ (λ s. Ensures-ok _ tt) (λ s. Ensures-err _)

  after-Justified :
      (account part : String) (r : Request) (digest token : String) (db : Db) (row : Dict)
      (items : List Action) (result : Bool × Db)
      → admission e db account part r digest token now ≡ ok (row, items)
      → commit db items ≡ result
      → Ensures
          (Justified e commit now)
          (after_admission e.settings part r.check_id digest token row result)
  unfolding after_admission
  after-Justified account part r digest token db row items (true, after) h c =
      let (g, admissible, proposal) =
        admission-Proposal e db account part r digest token now row items h in
      let (g', made) = (admission-receipt e db account part r digest token now).at (row, items) h in
      Ensures-ok _ (record {
        part = part;
        digest = digest;
        row = row;
        before = db;
        items = items;
        g = g;
        told = refl;
        committed = c;
        opened = new_receipt-Opened e.settings part r digest g' token now row valid made;
        admissible = admissible;
        proposal = proposal;
      })
  after-Justified account part r digest token db row items (false, after) h c =
      recovered-Justified part digest after (after.authority (check_key part r.check_id))

  new-Justified :
      (db : Db) (account part : String) (t : Token) (r : Request) (digest token : String)
      (prior : Option Dict)
      → Ensures
          (Justified e commit now)
          (admit_new e commit db account part t r digest token now prior)
  new-Justified db account part t r digest token (some prior) = replay-Justified prior digest db
  new-Justified db account part t r digest token none = Ensures-raise_if _ _ _ λ h.
      Ensures-bind _ _ λ out ho.
        after-Justified account part r digest token db out.0 out.1 (commit db out.1) ho refl

-- Under settings that pass their validation, an execution token is handed out only after the
-- transaction has returned; that transaction reserves one check under a grant that has room, in both
-- rows of a funded period, and puts the receipt only where none is; the receipt is open and is
-- retained beyond its settlement.
pub admit-Admitted :
    (e : Env) (commit : Commit) (db after : Db) (r : Request) (execution_token token : String)
    (receipt : Dict) (now : ℕ)
    → settings_valid e.settings ≡ true
    → admit e commit db r execution_token now ≡ ok (admitted token receipt, after)
    → Admitted e commit now receipt after
unfolding admit
admit-Admitted e commit db after r execution_token token receipt now valid =
    (Ensures-bind _ _ λ account ha. Ensures-bind _ _ λ u hu. Ensures-bind _ _ λ t ht.
        Ensures-bind _ _ λ part hp. Ensures-bind _ _ λ counted hc. Ensures-bind _ _ λ digest hd.
          Ensures-bind _ _ λ p hv.
            new-Justified e commit now valid counted account part t r digest execution_token _).at
      (admitted token receipt, after)

-- ===== src/Authority/Access/MutationFacts.antt =====
-- A mutation of the access row is made once: its audit row answers every repetition.
use amt_trust_check_radar_la.Base.{
  ℕ, String, Bool, true, false, not, some, none, ◌≡◌, refl, ap, ◌∙◌, subst, ok, Ensures,
  Ensures-bind, Ensures-raise_if, bind-ok, raise_if-false, eq_refl, ◌>>=◌, arith,
}
use amt_trust_check_radar_la.Python.{Dict, text, is_text, matches, name_char}
use amt_trust_check_radar_la.Authority.Access.Effective.{effective}
use amt_trust_check_radar_la.Authority.Access.Writer.{Access}
use amt_trust_check_radar_la.Authority.Access.Mutation.{
  Committed, Mutation, operation_key, recorded, audit_row, answer_of, reconciled, after_mutation,
  mutate_new, mutate,
}
use amt_trust_check_radar_la.Authority.Session.Store.{Db, Env, Commit, mac}

is_text_same : (t : String) → is_text t (text t) ≡ true
is_text_same t = simp eq_refl

-- The audit row records what the mutation answers.
recorded-audit_row :
    (pk operation digest action : String) (row : Dict) (now : ℕ)
    → recorded digest (audit_row pk operation digest action row now) ≡ answer_of row
unfolding recorded audit_row ◌>>=◌
recorded-audit_row pk operation digest action row now =
    raise_if-false _ _ (ap not (is_text_same digest))

module _ (e : Env) (commit : Commit) (db after : Db) (account : String) (a : Access) (m : Mutation)
    (operation digest : String) (now : ℕ) (row audit : Dict)
    (made : audit ≡ audit_row a.pk operation digest m.action row now)
    (stored : after.authority (operation_key a.pk operation) ≡ some audit) where
  audit-answer : recorded digest audit ≡ answer_of row
  audit-answer =
      ap (recorded digest) made ∙ recorded-audit_row a.pk operation digest m.action row now

  after-answer :
      (result : Bool × Db) (c : Committed)
      → after_mutation (operation_key a.pk operation) digest row result ≡ ok (c, after)
      → answer_of row ≡ ok c
  unfolding after_mutation reconciled ◌>>=◌
  after-answer (true, d) c h = ground arith
  after-answer (false, d) c h = ground (arith, stored, audit-answer)

module _ (e : Env) (db after : Db) (account : String) (a : Access) (m : Mutation)
    (operation digest : String) (now : ℕ)
    (operation_ok : mac e e.settings.active_key_id "authority-operation" m.operation_id
      ≡ ok operation)
    (digest_ok : mac e e.settings.active_key_id "authority-mutation" m.details ≡ ok digest) where
  -- the audit row of the mutation
  abbrev pub audit : Dict
  audit = audit_row a.pk operation digest m.action (effective now a.pk a.row m.sources) now

  mutate-new :
      (commit : Commit) (before : Db) (b : Access) (later : ℕ)
      → Ensures
          (λ out.
            (matches "" name_char 1 64 m.operation_id ≡ true)
            × (mutate_new e commit before account b m operation digest later
                  (before.authority (operation_key b.pk operation))
                ≡ ok out))
          (mutate e commit before account b m later)
  unfolding mutate
  mutate-new commit before b later = Ensures-raise_if _ _ _ λ named. Ensures-bind _ _ λ o ho.
      Ensures-bind _ _ λ d hd. record {
        at = λ out h.
            let same_o : o ≡ operation = cc (ho, operation_ok) in
            let same_d : d ≡ digest = cc (hd, digest_ok) in
            (
              ground arith,
              subst
                  (λ x.
                    mutate_new e commit before account b m x digest later
                      (before.authority (operation_key b.pk x))
                    ≡ ok out)
                  same_o
                  (subst
                    (λ x.
                      mutate_new e commit before account b m o x later
                        (before.authority (operation_key b.pk o))
                      ≡ ok out)
                    same_d h),
            );
      }

  abbrev Answers : Commit → Committed → Committed × Db → Type 0
  Answers commit c out = out ≡ (c, after) → answer_of (effective now a.pk a.row m.sources) ≡ ok c

  new-answer :
      (commit : Commit) (c : Committed)
      → after.authority (operation_key a.pk operation) ≡ some audit
      → mutate_new e commit db account a m operation digest now none ≡ ok (c, after)
      → answer_of (effective now a.pk a.row m.sources) ≡ ok c
  new-answer commit c stored h =
      (Ensures-bind {P = Answers commit c} _ _ λ items hi. record {
        at = λ out run same.
            after-answer e commit db after account a m operation digest now _ audit refl stored
              (commit db items) c (run ∙ ap ok same);
      }).at
        (c, after) h refl

  again :
      (commit : Commit) (b : Access) (later : ℕ) (c : Committed)
      → matches "" name_char 1 64 m.operation_id ≡ true
      → b.pk ≡ a.pk
      → after.authority (operation_key a.pk operation) ≡ some audit
      → answer_of (effective now a.pk a.row m.sources) ≡ ok c
      → mutate e commit after account b m later ≡ ok (c, after)
  unfolding mutate
  again commit b later c named same stored answer =
      raise_if-false _ _ (ap not named)
      ∙ bind-ok _ operation_ok
      ∙ bind-ok _ digest_ok
      ∙ ap (mutate_new e commit after account b m operation digest later)
          (ap (λ x. after.authority (operation_key x operation)) same ∙ stored)
      ∙ bind-ok _ (
          recorded-audit_row a.pk operation digest m.action (effective now a.pk a.row m.sources) now
          ∙ answer)

-- A mutation that has answered, and whose audit row is stored, answers every repetition of its
-- operation with the same revision, state and basis, and no table changes, whatever the access row
-- is by then and whether or not the first transaction returned.
pub mutate-once :
    (e : Env) (commit commit' : Commit) (db after : Db) (account : String) (a b : Access)
    (m : Mutation) (operation digest : String) (now later : ℕ) (c : Committed)
    → mac e e.settings.active_key_id "authority-operation" m.operation_id ≡ ok operation
    → mac e e.settings.active_key_id "authority-mutation" m.details ≡ ok digest
    → db.authority (operation_key a.pk operation) ≡ none
    → mutate e commit db account a m now ≡ ok (c, after)
    → after.authority (operation_key a.pk operation)
      ≡ some (audit_row a.pk operation digest m.action (effective now a.pk a.row m.sources) now)
    → b.pk ≡ a.pk
    → mutate e commit' after account b m later ≡ ok (c, after)
mutate-once e commit commit' db after account a b m operation digest now later c ho hd fresh first
      stored same =
    let (named, run) =
      (mutate-new e db after account a m operation digest now ho hd commit db a now).at (c, after)
        first in
    let run_new =
      subst (λ x. mutate_new e commit db account a m operation digest now x ≡ ok (c, after)) fresh
        run in
    again e db after account a m operation digest now ho hd commit' b later c named same stored
      (new-answer e db after account a m operation digest now ho hd commit c stored run_new)

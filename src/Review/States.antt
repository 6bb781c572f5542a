-- ===== src/Review/States.antt =====
-- The states of a campaign under review: the chains of reviews, and what they keep and rest on.
use amt_trust_check_radar_la.Base.{
  ℕ, ◌≤◌, ◌≡◌, refl, ◌∙◌, ap, subst, String, Bool, true, false, ◌&&◌, none, some, List, ◌∷◌, str_eq,
  eq_iff, if◌then◌else◌, ok, arith,
}
use amt_trust_check_radar_la.Python.{
  ℤ, pos, negsuc, ◌+ℤ◌, Value, text, decimal, Dict, get, lookup, text_of, is_text, put, remove,
  get-put,
}
use amt_trust_check_radar_la.Dynamo.{Change, assign, changes, change, written, holds, condition_of}
use amt_trust_check_radar_la.Dynamo.Spares.{some-same, get-remove, get-removed}
use amt_trust_check_radar_la.Review.Decide.{
  Environment, Review, Reviewed, transitions, count_attribute, fewer, is_public, decide,
}
use amt_trust_check_radar_la.Review.Decided.{Indexed, Moved, decide-Moved, entered, withdrawn, kept}

-- one review: a decision on the row whose transaction was accepted
pub data Step (v : Environment) : Dict → Dict → Type 0 where
  step :
      {row after : Dict} (r : Review) (now : ℕ) (p : Reviewed)
      → decide v r row now ≡ ok p
      → holds (condition_of p.update) (some row) ≡ true
      → written p.update (some row) ≡ some after
      → Step v row after

pub data Reach (v : Environment) (start : Dict) : Dict → Type 0 where
  here : Reach v start start
  next : {row after : Dict} → Reach v start row → Step v row after → Reach v start after

-- The row is in the index of published campaigns exactly when it is published.
pub record Listed (row : Dict) : Type 0 where
  pub in_index :
      is_text "PUBLISHED" (lookup "state" row) ≡ true
      → get "GSI1PK" row ≡ some (text "STATE#PUBLISHED")
  pub out_of_index : is_text "PUBLISHED" (lookup "state" row) ≡ false → get "GSI1PK" row ≡ none

index_after :
    (current target : String) {index : List Change} (state version : Value) (row after : Dict)
    → Indexed current target index
    → changes (assign "state" state ∷ assign "version" version ∷ index) row ≡ some after
    → (str_eq current "PUBLISHED" ≡ false → get "GSI1PK" row ≡ none)
    → get "GSI1PK" after
      ≡ (if str_eq target "PUBLISHED" then some (text "STATE#PUBLISHED") else none)
unfolding changes change
index_after current target state version row after (entered w e) h out =
    subst
      (λ d.
        get "GSI1PK" d
        ≡ (if str_eq target "PUBLISHED" then some (text "STATE#PUBLISHED") else none))
      (some-same h) (rw e (simp get-put))
index_after current target state version row after (withdrawn e f) h out =
    subst
      (λ d.
        get "GSI1PK" d
        ≡ (if str_eq target "PUBLISHED" then some (text "STATE#PUBLISHED") else none))
      (some-same h)
      (rw e (
        get-remove "GSI1SK" "GSI1PK"
          (remove "GSI1PK" (put "version" version (put "state" state row))) refl
        ∙ get-removed "GSI1PK" (put "version" version (put "state" state row))))
index_after current target state version row after (kept e f) h out =
    subst
      (λ d.
        get "GSI1PK" d
        ≡ (if str_eq target "PUBLISHED" then some (text "STATE#PUBLISHED") else none))
      (some-same h)
      (rw e (
        get-put "version" "GSI1PK" version (put "state" state row)
        ∙ get-put "state" "GSI1PK" state row
        ∙ out f))

-- the state that was read
read_state :
    (row : Dict) (current : String)
    → text_of (lookup "state" row) ≡ some current
    → lookup "state" row ≡ text current
read_state row current h = ground arith

Step-Listed : {v : Environment} {row after : Dict} → Step v row after → Listed row → Listed after
Step-Listed {v} {row} {after} (step r now p h c w) l =
    let m : Moved v r row now p after = decide-Moved v r row now p after h w in
    let d = m.decided in
    let index =
      index_after d.current p.state (text p.state) (decimal (d.version +ℤ pos 1)) row after m.kind
        m.changed (λ other. l.out_of_index (rw (read_state row d.current d.was) other)) in
    record {
      in_index = λ e. ground (arith, index, m.state_now);
      out_of_index = λ e. ground (arith, index, m.state_now);
    }

-- A chain of reviews keeps a campaign's row in the index of published campaigns exactly while it is
-- published.
pub Reach-Listed :
    (v : Environment) {start row : Dict} → Reach v start row → Listed start → Listed row
Reach-Listed v here l = l
Reach-Listed v (next r s) l = Step-Listed s (Reach-Listed v r l)

-- the review that published a campaign
pub record Publication (v : Environment) (start after : Dict) : Type 0 where
  pub row : Dict
  pub reached : Reach v start row
  pub last : Step v row after
  pub confirmed : lookup "state" row ≡ text "CONFIRMED"
  pub contributors : ℕ
  pub counts : count_attribute "contributorCount" row ≡ some (pos contributors)
  pub enough : v.minimum_contributors ≤ contributors

-- A count that is not below the minimum is a natural number that reaches it.
not_fewer : (z : ℤ) (m : ℕ) → fewer z m ≡ false → (n : ℕ) × (z ≡ pos n) × (m ≤ n)
not_fewer (pos n) m h = (n, refl, ground arith)
not_fewer (negsuc n) m h = cc

only_confirmed :
    (current action : String)
    → transitions current action ≡ some "PUBLISHED"
    → str_eq current "CONFIRMED" ≡ true
unfolding transitions
only_confirmed current action h =
    ground (arith, eq_iff "SUPPRESSED" "PUBLISHED", eq_iff "CONFIRMED" "PUBLISHED")

enough_for :
    (state : String) (b : Bool) → state ≡ "PUBLISHED" → (is_public state && b) ≡ false → b ≡ false
enough_for state b e h = rw e at h

Step-Publication :
    (v : Environment) {start row after : Dict}
    → Reach v start row
    → Step v row after
    → lookup "state" after ≡ text "PUBLISHED"
    → Publication v start after
Step-Publication v {start} {row} {after} r (step review now p h c w) public =
    let m : Moved v review row now p after = decide-Moved v review row now p after h w in
    let d = m.decided in
    let target : p.state ≡ "PUBLISHED" = cc (m.state_now, public) in
    let (n, same, enough) = not_fewer d.contributors _ (enough_for p.state _ target d.enough) in
    record {
      row = row;
      reached = r;
      last = step review now p h c w;
      confirmed =
          read_state row d.current d.was
          ∙ ap text (
              (eq_iff d.current "CONFIRMED").0
                (only_confirmed d.current review.action (rw (← target) d.allowed)));
      contributors = n;
      counts = d.counts ∙ ap some same;
      enough = enough;
    }

-- A campaign that was not published before a chain of reviews and is published after it was published
-- by a review of a confirmed row, reached by the chain, that counts at least the minimum of
-- contributors.
pub Reach-Publication :
    (v : Environment) {start after : Dict}
    → Reach v start after
    → is_text "PUBLISHED" (lookup "state" start) ≡ false
    → lookup "state" after ≡ text "PUBLISHED"
    → Publication v start after
Reach-Publication v here hidden public = cc (rw public at hidden)
Reach-Publication v (next r s) hidden public = Step-Publication v r s public

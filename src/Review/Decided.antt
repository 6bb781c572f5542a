-- ===== src/Review/Decided.antt =====
-- What a decision of `review` means for the row of the campaign: the guards that it passed, its writes,
-- and the decisions on the same row that it excludes.
use amt_trust_check_radar_la.Base.{
  ℕ, zero, suc, ◌≡◌, refl, ◌∙◌, ap, subst, inl, inr, String, true, false, ◌&&◌, Option, none, some,
  List, [], ◌∷◌, str_eq, ok, bind-inverse, require-inverse, raise_if-inverse, ok-injective,
  Bool-cases, arith,
}
use amt_trust_check_radar_la.Python.{
  ℤ, pos, negsuc, ◌+ℤ◌, same_number, Value, text, decimal, Dict, get, lookup, text_of, value_eq,
}
use amt_trust_check_radar_la.Dynamo.{
  update, Change, assign, discard, changes, written, holds, condition_of,
}
use amt_trust_check_radar_la.Dynamo.Spares.{spares, changes-first, changes-second}
use amt_trust_check_radar_la.Review.Decide.{
  Environment, Review, Reviewed, transitions, live_until, placed, count_attribute, fewer,
  campaign_key, is_public, index_changes, unchanged_since, decide,
}

-- what an accepted decision rests on
pub record Decided (v : Environment) (r : Review) (row : Dict) (now : ℕ) (p : Reviewed)
    : Type 0 where
  pub current : String
  pub contributors : ℤ
  pub version : ℤ
  pub index : List Change
  pub was : text_of (lookup "state" row) ≡ some current
  pub allowed : transitions current r.action ≡ some p.state
  pub counts : count_attribute "contributorCount" row ≡ some contributors
  pub enough : (is_public p.state && fewer contributors v.minimum_contributors) ≡ false
  pub versioned : count_attribute "version" row ≡ some version
  pub indexed : index_changes r.campaign_id current p.state row ≡ ok index
  pub proposed :
      p.update
      ≡ update v.table
          (campaign_key r.campaign_id)
          (assign "state" (text p.state) ∷ assign "version" (decimal (version +ℤ pos 1)) ∷ index)
          (unchanged_since current version
            (lookup "expiresAt" row)
            now
            (text_of (lookup "expiryPartition" row)))

pub decide-Decided :
    (v : Environment) (r : Review) (row : Dict) (now : ℕ) (p : Reviewed)
    → decide v r row now ≡ ok p
    → Decided v r row now p
unfolding decide
decide-Decided v r row now p h =
    let (expiry, e0, h0) = bind-inverse (live_until row now) _ h in
    let (u, e1, h1) =
      bind-inverse (placed v r.campaign_id row (text_of (lookup "expiryPartition" row))) _ h0 in
    let (current, was, h2) = require-inverse (text_of (lookup "state" row)) _ _ h1 in
    let (target, allowed, h3) = require-inverse (transitions current r.action) _ _ h2 in
    let (contributors, counts, h4) =
      require-inverse (count_attribute "contributorCount" row) _ _ h3 in
    let (enough, h5) =
      raise_if-inverse (is_public target && fewer contributors v.minimum_contributors) _ _ h4 in
    let (version, versioned, h6) = require-inverse (count_attribute "version" row) _ _ h5 in
    let (index, indexed, h7) = bind-inverse (index_changes r.campaign_id current target row) _ h6 in
    subst (Decided v r row now) (ok-injective h7) (record {
      current = current;
      contributors = contributors;
      version = version;
      index = index;
      was = was;
      allowed = allowed;
      counts = counts;
      enough = enough;
      versioned = versioned;
      indexed = indexed;
      proposed = refl;
    })

-- the three kinds of index changes
pub data Indexed (current target : String) : List Change → Type 0 where
  entered :
      (w : Value)
      → str_eq target "PUBLISHED" ≡ true
      → Indexed current target (assign "GSI1PK" (text "STATE#PUBLISHED") ∷ assign "GSI1SK" w ∷ [])
  withdrawn :
      str_eq target "PUBLISHED" ≡ false
      → str_eq current "PUBLISHED" ≡ true
      → Indexed current target (discard "GSI1PK" ∷ discard "GSI1SK" ∷ [])
  kept :
      str_eq target "PUBLISHED" ≡ false
      → str_eq current "PUBLISHED" ≡ false
      → Indexed current target []

index_changes-Indexed :
    (campaign_id current target : String) (row : Dict) (index : List Change)
    → index_changes campaign_id current target row ≡ ok index
    → Indexed current target index
unfolding index_changes
index_changes-Indexed campaign_id current target row index h =
    elim (Bool-cases (str_eq target "PUBLISHED")) [
      | inl publish ↦
          let (period, e, k) =
            require-inverse (text_of (lookup "periodWeek" row)) _ _ (rw publish at h) in
          subst (Indexed current target) (ok-injective k) (entered _ publish)
      | inr other ↦ elim (Bool-cases (str_eq current "PUBLISHED")) [
        | inl public ↦
            subst (Indexed current target) (ok-injective (rw (other, public) at h))
              (withdrawn other public)
        | inr hidden ↦
            subst (Indexed current target) (ok-injective (rw (other, hidden) at h))
              (kept other hidden)
      ]
    ]

-- The index changes leave the state and the version alone.
Indexed-spares :
    (k current target : String) {index : List Change}
    → Indexed current target index
    → str_eq "GSI1PK" k ≡ false
    → str_eq "GSI1SK" k ≡ false
    → spares k index ≡ true
Indexed-spares k current target (entered w e) a b = ground arith
Indexed-spares k current target (withdrawn e f) a b = ground arith
Indexed-spares k current target (kept e f) a b = refl

-- the row after an accepted decision
pub record Moved (v : Environment) (r : Review) (row : Dict) (now : ℕ) (p : Reviewed) (after : Dict)
    : Type 0 where
  pub decided : Decided v r row now p
  pub state_now : get "state" after ≡ some (text p.state)
  pub version_now : get "version" after ≡ some (decimal (decided.version +ℤ pos 1))
  pub kind : Indexed decided.current p.state decided.index
  pub changed :
      changes
        (assign "state" (text p.state)
          ∷ assign "version" (decimal (decided.version +ℤ pos 1))
          ∷ decided.index)
        row
      ≡ some after

pub decide-Moved :
    (v : Environment) (r : Review) (row : Dict) (now : ℕ) (p : Reviewed) (after : Dict)
    → decide v r row now ≡ ok p
    → written p.update (some row) ≡ some after
    → Moved v r row now p after
decide-Moved v r row now p after h w =
    let d : Decided v r row now p = decide-Decided v r row now p h in
    let kind : Indexed d.current p.state d.index =
      index_changes-Indexed r.campaign_id d.current p.state row d.index d.indexed in
    let changed = subst (λ u. written u (some row) ≡ some after) d.proposed w in
    record {
      decided = d;
      kind = kind;
      changed = changed;
      state_now =
          changes-first "state" "version" (text p.state) (decimal (d.version +ℤ pos 1)) d.index row
            after refl (Indexed-spares "state" d.current p.state kind refl refl) changed;
      version_now =
          changes-second "state" "version" (text p.state) (decimal (d.version +ℤ pos 1)) d.index row
            after (Indexed-spares "version" d.current p.state kind refl refl) changed;
    }

same_value : (o : Option ℤ) (a b : ℤ) → o ≡ some a → o ≡ some b → a ≡ b
same_value o a b h k = cc

later_version : (z : ℤ) → same_number z (z +ℤ pos 1) ≡ false
later_version (pos n) = ground arith
later_version (negsuc zero) = refl
later_version (negsuc (suc n)) = ground arith

other_version :
    (current : String) (version : ℤ) (expiry : Value) (now : ℕ) (partition : Option String)
    (row : Dict)
    → get "version" row ≡ some (decimal (version +ℤ pos 1))
    → holds (unchanged_since current version expiry now partition) (some row) ≡ false
unfolding holds value_eq
other_version current version expiry now none row h = ground (arith, later_version version)
other_version current version expiry now (some p) row h = ground (arith, later_version version)

-- Once the update of a decision was written, the update of every other decision on the row as it was
-- before is refused, whoever made it and for whatever review and time.
pub decide-excludes :
    (v w : Environment) (r s : Review) (row after : Dict) (now later : ℕ) (p q : Reviewed)
    → decide v r row now ≡ ok p
    → decide w s row later ≡ ok q
    → written p.update (some row) ≡ some after
    → holds (condition_of q.update) (some after) ≡ false
decide-excludes v w r s row after now later p q h k written_once =
    let m : Moved v r row now p after = decide-Moved v r row now p after h written_once in
    let d : Decided w s row later q = decide-Decided w s row later q k in
    rw (d.proposed) (
      other_version d.current d.version (lookup "expiresAt" row) later
        (text_of (lookup "expiryPartition" row)) after
        (m.version_now
          ∙ ap (λ z. some (decimal (z +ℤ pos 1)))
              (same_value (count_attribute "version" row) m.decided.version d.version
                m.decided.versioned d.versioned)))

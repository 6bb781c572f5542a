-- ===== src/Assessment/Sound.antt =====
-- What is sound of an assessment at each of its steps.
use amt_trust_check_radar_la.Base.{
  ℕ, zero, suc, ◌+◌, ◌≤◌, ◌≡◌, refl, ◌∙◌, String, Bool, true, false, Option, List, [], ◌∷◌, length,
  Outcome, ok, err, ◌>>=◌, Bool-cases, inl, inr, arith,
}
use amt_trust_check_radar_la.Resolver.Loop.{Observation}
use amt_trust_check_radar_la.Assessment.Evidence.{
  Evidence, Trouble, unavailable, other, is_empty, evidence, is_current,
}
use amt_trust_check_radar_la.Assessment.Request.{Asked, Response, validate_resolution, urls}
use amt_trust_check_radar_la.Assessment.Assess.{
  World, Assessment, Progress, going, returned, interrupted, spent, earliest, matched, if_current,
  judged, noted, looked_up, allowed, look, look_all, cleared, concluded, recover,
}

module _ (w : World) where
  -- the n-th lookup found nothing for the URL
  pub record Clear (n : ℕ) (url : String) : Type 0 where
    pub found : Evidence
    pub answer : (w.lookup n url >>= evidence w.epoch) ≡ ok found
    pub nothing : is_empty found.threat_types ≡ true

  abbrev pub AllClear : ℕ → List String → Type 0
  AllClear n [] = Unit
  AllClear n (url ∷ rest) = Clear n url × AllClear (suc n) rest

  -- the n-th lookup found a threat that is current
  pub record Threat (n : ℕ) (url : String) : Type 0 where
    pub found : Evidence
    pub answer : (w.lookup n url >>= evidence w.epoch) ≡ ok found
    pub something : is_empty found.threat_types ≡ false
    pub in_force : is_current w.epoch found.observed_at found.valid_until (w.now n) ≡ ok true

  -- the lookups up to the one that found a threat
  abbrev pub Matched : ℕ → ℕ → List String → Type 0
  Matched k n [] = ⊥
  Matched zero n (url ∷ rest) = Threat n url
  Matched (suc k) n (url ∷ rest) = Clear n url × Matched k (suc n) rest

  -- what the lookups leave, from the result `a`
  abbrev pub Looked : ℕ → List String → Assessment → Progress → Type 0
  Looked n us a (going b) =
      AllClear n us × (b.lookup_count ≡ a.lookup_count + length us) × (b.verdict ≡ a.verdict)
  Looked n us a (returned b) =
      (k : ℕ) × Matched k n us
      × (b.lookup_count ≡ a.lookup_count + suc k)
      × (b.verdict ≡ "high_risk")
  Looked n us a (interrupted t b) =
      (b.lookup_count ≤ a.lookup_count + length us) × (b.verdict ≡ a.verdict)

  module _ (n : ℕ) (url : String) (a : Assessment) where
    if_current-Looked :
        (e : Evidence)
        → (w.lookup n url >>= evidence w.epoch) ≡ ok e
        → is_empty e.threat_types ≡ false
        → (o : Outcome Trouble Bool) → is_current w.epoch e.observed_at e.valid_until (w.now n) ≡ o
        → (b : Assessment) → b.lookup_count ≡ a.lookup_count + 1
        → b.verdict ≡ a.verdict
        → Looked n (url ∷ []) a (if_current e b o)
    unfolding matched
    if_current-Looked e h some_threat (ok true) c b count verdict =
        (0, record { found = e; answer = h; something = some_threat; in_force = c }, count, refl)
    if_current-Looked e h some_threat (ok false) c b count verdict = (omega arith, verdict)
    if_current-Looked e h some_threat (err t) c b count verdict = (omega arith, verdict)

    judged-Looked :
        (e : Evidence)
        → (w.lookup n url >>= evidence w.epoch) ≡ ok e
        → (b : Assessment) → b.lookup_count ≡ a.lookup_count + 1
        → b.verdict ≡ a.verdict
        → Looked n (url ∷ []) a (judged w n e b)
    judged-Looked e h b count verdict = elim (Bool-cases (is_empty e.threat_types)) [
      | inl none_found ↦
          rw none_found
            ((record { found = e; answer = h; nothing = none_found }, tt), count, verdict)
      | inr some_threat ↦ rw some_threat (
          if_current-Looked e h some_threat
            (is_current w.epoch e.observed_at e.valid_until (w.now n)) refl b count verdict)
    ]

    noted-Looked :
        (e : Evidence)
        → (w.lookup n url >>= evidence w.epoch) ≡ ok e
        → (b : Assessment) → b.lookup_count ≡ a.lookup_count + 1
        → b.verdict ≡ a.verdict
        → (o : Outcome Trouble (Option String)) → Looked n (url ∷ []) a (noted w n e b o)
    noted-Looked e h b count verdict (ok seen_at) =
        judged-Looked e h (record b { lookup_observed_at = seen_at }) count verdict
    noted-Looked e h b count verdict (err t) = (omega arith, verdict)

    looked_up-Looked :
        (b : Assessment)
        → b.lookup_count ≡ a.lookup_count + 1
        → b.verdict ≡ a.verdict
        → (o : Outcome Trouble Evidence) → (w.lookup n url >>= evidence w.epoch) ≡ o
        → Looked n (url ∷ []) a (looked_up w n b o)
    looked_up-Looked b count verdict (ok e) h =
        noted-Looked e h b count verdict (earliest w.epoch e.observed_at b.lookup_observed_at)
    looked_up-Looked b count verdict (err t) h = (omega arith, verdict)

    allowed-Looked : (o : Outcome Trouble Unit) → Looked n (url ∷ []) a (allowed w n url a o)
    allowed-Looked (err t) = (omega arith, refl)
    allowed-Looked (ok u) =
        looked_up-Looked (record a { lookup_count = a.lookup_count + 1 }) refl refl
          (w.lookup n url >>= evidence w.epoch) refl

    look-Looked : Looked n (url ∷ []) a (look w n url a)
    unfolding look
    look-Looked = allowed-Looked (spent (w.expired (suc n)))

  -- the lookups after one that went on
  after-Looked :
      (n : ℕ) (url : String) (rest : List String) (a b : Assessment)
      → Looked n (url ∷ []) a (going b)
      → (p : Progress) → Looked (suc n) rest b p
      → Looked n (url ∷ rest) a p
  after-Looked n url rest a b h (going c) k = ((h.0.0, k.0), omega (arith, h.1, k.1), k.2 ∙ h.2)
  after-Looked n url rest a b h (returned c) k =
      (suc k.0, (h.0.0, k.1), omega (arith, h.1, k.2), k.3)
  after-Looked n url rest a b h (interrupted t c) k = (omega (arith, h.1, k.0), k.1 ∙ h.2)

  first_match :
      (k n : ℕ) (url : String) (rest : List String)
      → Matched k n (url ∷ [])
      → Matched k n (url ∷ rest)
  first_match zero n url rest m = m
  first_match (suc k) n url rest m = absurd m.1

  -- the turns that are left out after one that ends the loop
  turn-Looked :
      (n : ℕ) (url : String) (rest : List String) (a : Assessment)
      → ((b : Assessment) → Looked (suc n) rest b (look_all w (suc n) rest b))
      → (p : Progress) → Looked n (url ∷ []) a p
      → Looked n (url ∷ rest) a (elim p [
        | going b ↦ look_all w (suc n) rest b
        | returned b ↦ returned b
        | interrupted t b ↦ interrupted t b
      ])
  turn-Looked n url rest a later (going b) h =
      after-Looked n url rest a b h (look_all w (suc n) rest b) (later b)
  turn-Looked n url rest a later (returned b) h = (h.0, first_match h.0 n url rest h.1, h.2, h.3)
  turn-Looked n url rest a later (interrupted t b) h = (omega (arith, h.0), h.1)

  pub look_all-Looked :
      (n : ℕ) (us : List String) (a : Assessment) → Looked n us a (look_all w n us a)
  unfolding look_all
  look_all-Looked n [] a = (tt, omega arith, refl)
  look_all-Looked n (url ∷ rest) a =
      turn-Looked n url rest a (λ b. look_all-Looked (suc n) rest b) (look w n url a)
        (look-Looked n url a)

  -- on what a verdict rests, for a request and a resolution that were accepted
  pub data Grounds (asked : Asked) (o : Observation) (a : Assessment) : Type 0 where
    no_verdict : a.verdict ≡ "unknown" → Grounds asked o a
    all_clear :
        a.verdict ≡ "no_known_threat_detected"
        → asked.whole ≡ true
        → o.http_chain_complete ≡ true
        → AllClear 0 (urls o.hops)
        → a.lookup_count ≡ length (urls o.hops)
        → Grounds asked o a
    known_threat :
        (k : ℕ)
        → a.verdict ≡ "high_risk"
        → Matched k 0 (urls o.hops)
        → a.lookup_count ≡ suc k
        → Grounds asked o a

  pub record Sound (asked : Asked) (o : Observation) (a : Assessment) : Type 0 where
    pub grounds : Grounds asked o a
    pub hops_counted : a.observed_hop_count ≡ length o.hops
    pub few_lookups : a.lookup_count ≤ a.observed_hop_count

  abbrev assessment_of : Progress → Assessment
  assessment_of (going a) = a
  assessment_of (returned a) = a
  assessment_of (interrupted t a) = a

  abbrev hops_of : Progress → ℕ
  hops_of p = (assessment_of p).observed_hop_count

  allowed-hops :
      (n : ℕ) (url : String) (a : Assessment) (o : Outcome Trouble Unit)
      → hops_of (allowed w n url a o) ≡ a.observed_hop_count
  unfolding matched
  allowed-hops n url a o = ground arith

  turn-hops :
      (n : ℕ) (rest : List String) (a : Assessment)
      → ((b : Assessment) → hops_of (look_all w (suc n) rest b) ≡ b.observed_hop_count)
      → (p : Progress) → hops_of p ≡ a.observed_hop_count
      → hops_of (elim p [
        | going b ↦ look_all w (suc n) rest b
        | returned b ↦ returned b
        | interrupted t b ↦ interrupted t b
      ])
        ≡ a.observed_hop_count
  turn-hops n rest a later (going b) h = later b ∙ h
  turn-hops n rest a later (returned b) h = h
  turn-hops n rest a later (interrupted t b) h = h

  pub look_all-hops :
      (n : ℕ) (us : List String) (a : Assessment)
      → hops_of (look_all w n us a) ≡ a.observed_hop_count
  unfolding look_all look
  look_all-hops n [] a = refl
  look_all-hops n (url ∷ rest) a =
      turn-hops n rest a (λ b. look_all-hops (suc n) rest b)
        (allowed w n url a (spent (w.expired (suc n))))
        (allowed-hops n url a (spent (w.expired (suc n))))

  Matched-lt : (k n : ℕ) (us : List String) → Matched k n us → suc k ≤ length us
  Matched-lt k n [] m = absurd m
  Matched-lt zero n (url ∷ rest) m = omega arith
  Matched-lt (suc k) n (url ∷ rest) m = omega (arith, Matched-lt k (suc n) rest m.1)

  cleared-Grounds :
      (asked : Asked) (o : Observation) (b : Assessment)
      → b.verdict ≡ "unknown"
      → AllClear 0 (urls o.hops)
      → b.lookup_count ≡ length (urls o.hops)
      → Grounds asked o
          (recover w.provider_calls (returned (cleared o.http_chain_complete asked.whole b)))
  unfolding cleared
  cleared-Grounds asked o b unknown clear count = elim (Bool-cases asked.whole) [
    | inr origin ↦ no_verdict (ground arith)
    | inl whole ↦ elim (Bool-cases o.http_chain_complete) [
      | inl complete ↦ all_clear (ground arith) whole complete clear (ground arith)
      | inr partial ↦ no_verdict (ground arith)
    ]
  ]

  -- the way from the lookups to the result
  pub concluded-Sound :
      (asked : Asked) (o : Observation) (a : Assessment)
      → a.verdict ≡ "unknown"
      → a.lookup_count ≡ 0
      → a.observed_hop_count ≡ length o.hops
      → length (urls o.hops) ≡ length o.hops
      → (p : Progress) → Looked 0 (urls o.hops) a p
      → hops_of p ≡ a.observed_hop_count
      → Sound asked o (recover w.provider_calls (concluded o.http_chain_complete asked.whole p))
  unfolding cleared
  concluded-Sound asked o a unknown no_count hops same (going b) k kept = record {
    grounds = cleared-Grounds asked o b (k.2 ∙ unknown) k.0 (omega (arith, k.1));
    hops_counted = ground (arith, kept, hops);
    few_lookups = ground (arith, kept, hops, k.1);
  }
  concluded-Sound asked o a unknown no_count hops same (returned b) k kept = record {
    grounds = known_threat k.0 k.3 k.1 (omega arith);
    hops_counted = kept ∙ hops;
    few_lookups = omega (arith, k.2, Matched-lt k.0 0 (urls o.hops) k.1);
  }
  concluded-Sound asked o a unknown no_count hops same (interrupted (unavailable r) b) k kept =
      record {
        grounds = no_verdict (k.1 ∙ unknown);
        hops_counted = kept ∙ hops;
        few_lookups = omega arith;
      }
  concluded-Sound asked o a unknown no_count hops same (interrupted other b) k kept = record {
    grounds = no_verdict (k.1 ∙ unknown);
    hops_counted = kept ∙ hops;
    few_lookups = omega arith;
  }

  -- the assessment of an accepted request
  pub data Rests (asked : Asked) (a : Assessment) : Type 0 where
    unresolved : a.verdict ≡ "unknown" → a.lookup_count ≡ 0 → Rests asked a
    resolved_by :
        (answer : Option Response) (o : Observation)
        → w.resolve asked.check_id asked.target.url ≡ ok answer
        → validate_resolution w.parse_target answer asked.check_id asked.target.url ≡ ok o
        → length o.hops ≤ 6
        → Sound asked o a
        → Rests asked a

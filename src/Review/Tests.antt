-- ===== src/Review/Tests.antt =====
-- A campaign with six contributors, confirmed and published.
use amt_trust_check_radar_la.Base.{ℕ, ◌≡◌, refl, String, false, some, Outcome, ok, err, ◌>>=◌}
use amt_trust_check_radar_la.Python.{
  pos, Value, text, decimal, int, dict, Dict, end, entry, natural, integral, value_eq, same_keys,
  matches,
}
use amt_trust_check_radar_la.Dynamo.{delete, always, changes, change, holds, condition_of, Key}
use amt_trust_check_radar_la.Review.Reviewer.{joined, is_authorized, groups_of}
use amt_trust_check_radar_la.Review.Decide.{
  Environment, Review, Reviewed, ReviewError, privacy_threshold, decide, review, read_request,
  transitions, live_until, placed, index_changes,
}
use amt_trust_check_radar_la.Review.Decided.{decide-excludes}
use amt_trust_check_radar_la.Review.States.{
  Step, step, Reach, here, next, Listed, Reach-Listed, Publication, Reach-Publication,
}

abbrev environment : ℕ → Environment
environment minimum = record {
  table = "campaigns";
  reviewer_group = "reviewers";
  minimum_contributors = minimum;
  shard = λ s. 3;
  audit_id = "3f2b8c1e-9a4d-4e6f-8b21-0c9d7e5f6a1b";
  shows_contact = λ s. false;
}

abbrev waiting : Dict
waiting = entry "state" (text "PENDING_REVIEW") (
    entry "version" (decimal (pos 4)) (
      entry "expiresAt" (decimal (pos 2000))
        (entry "contributorCount" (decimal (pos 6)) (entry "periodWeek" (text "2026-W27") end))))

abbrev confirmed : Dict
confirmed = entry "state" (text "CONFIRMED") (
    entry "version" (decimal (pos 5)) (
      entry "expiresAt" (decimal (pos 2000))
        (entry "contributorCount" (decimal (pos 6)) (entry "periodWeek" (text "2026-W27") end))))

abbrev published : Dict
published = entry "state" (text "PUBLISHED") (
    entry "version" (decimal (pos 6)) (
      entry "expiresAt" (decimal (pos 2000)) (
        entry "contributorCount" (decimal (pos 6)) (
          entry "periodWeek" (text "2026-W27") (
            entry "GSI1PK" (text "STATE#PUBLISHED")
              (entry "GSI1SK" (text "2026-W27#CAMPAIGN#c1") end))))))

abbrev asks : String → Review
asks action = record { campaign_id = "c1"; action = action; reason_code = "quality_verified" }

abbrev value_or_else : Outcome ReviewError Reviewed → Reviewed → Reviewed
value_or_else (ok p) q = p
value_or_else (err e) q = q

abbrev nothing : Reviewed
nothing = record {
  update = delete "" (record { pk = ""; sk = "" }) always;
  audit = delete "" (record { pk = ""; sk = "" }) always;
  state = "";
  version = pos 0;
}

abbrev answer : String → Dict → Reviewed
unfolding decide transitions live_until placed index_changes ◌>>=◌ natural integral
answer action row = value_or_else (decide (environment 5) (asks action) row 1000) nothing

confirmation : Step (environment 5) waiting confirmed
unfolding answer decide transitions live_until placed index_changes ◌>>=◌ natural integral changes
    change holds value_eq
confirmation = step (asks "confirm") 1000 (answer "confirm" waiting) refl refl refl

publication : Step (environment 5) confirmed published
unfolding answer decide transitions live_until placed index_changes ◌>>=◌ natural integral changes
    change holds value_eq
publication = step (asks "publish") 1000 (answer "publish" confirmed) refl refl refl

-- the whole handler, where too few have contributed
abbrev body : Value
body = dict (
    entry "schemaVersion" (int (pos 1)) (
      entry "action" (text "confirm") (
        entry "reasonCode" (text "quality_verified")
          (entry "reason" (text "looks right to me") end))))

too_few :
    review
      (environment 7)
      (joined "[admins, reviewers]")
      (text "c1")
      (some body)
      (λ (k : Key). some waiting)
      1000
    ≡ err privacy_threshold
unfolding review read_request is_authorized groups_of same_keys matches decide transitions
    live_until placed index_changes ◌>>=◌ natural integral
too_few = refl

decide-excludes_example :
    holds (condition_of (answer "suppress" waiting).update) (some confirmed) ≡ false
unfolding answer decide transitions live_until placed index_changes ◌>>=◌ natural integral changes
    change
decide-excludes_example =
    decide-excludes (environment 5) (environment 5) (asks "confirm") (asks "suppress") waiting
      confirmed 1000 1000 (answer "confirm" waiting) (answer "suppress" waiting) refl refl refl

abbrev chain : Reach (environment 5) waiting published
chain = next (next here confirmation) publication

Reach-Listed_example : Listed published
Reach-Listed_example =
    Reach-Listed (environment 5) chain (record { in_index = λ h. cc; out_of_index = λ h. refl })

Reach-Publication_example : Publication (environment 5) waiting published
Reach-Publication_example = Reach-Publication (environment 5) chain refl refl

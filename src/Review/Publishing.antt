-- ===== src/Review/Publishing.antt =====
-- The way of a campaign to its publication.
use amt_trust_check_radar_la.Base.{ℕ, ◌<◌, ◌≡◌, String, none, some, List, ◌∷◌}
use amt_trust_check_radar_la.Python.{
  ℤ, pos, ◌+ℤ◌, text, decimal, Dict, get, lookup, text_of, natural, put,
}
use amt_trust_check_radar_la.Dynamo.{update, put_item, Change, assign, both, not_exists}
use amt_trust_check_radar_la.Review.Decide.{
  Environment, Review, Reviewed, campaign_key, unchanged_since, review_audit,
}

-- a row that holds what the reviews of a campaign read, and is in no expiry partition
pub record Reviewable (now count : ℕ) (version : ℤ) (state period : String) (row : Dict)
    : Type 0 where
  pub expiry : ℕ
  pub expires : natural (lookup "expiresAt" row) ≡ some expiry
  pub ahead : now < expiry
  pub unplaced : text_of (lookup "expiryPartition" row) ≡ none
  pub in_state : get "state" row ≡ some (text state)
  pub versioned : get "version" row ≡ some (decimal version)
  pub counts : get "contributorCount" row ≡ some (decimal (pos count))
  pub of_week : get "periodWeek" row ≡ some (text period)

abbrev reviewed : Environment → Review → Dict → ℕ → String → String → ℤ → List Change → Reviewed
reviewed v r row now current target version index = record {
  update =
      update v.table (campaign_key r.campaign_id)
        (assign "state" (text target) ∷ assign "version" (decimal (version +ℤ pos 1)) ∷ index)
        (unchanged_since current version (lookup "expiresAt" row) now none);
  audit =
      put_item v.table (review_audit v r current target (lookup "expiresAt" row) none)
        (both (not_exists "PK") (not_exists "SK"));
  state = target;
  version = version +ℤ pos 1;
}

-- the row after a review, and after two of them
abbrev confirmed_row : ℤ → Dict → Dict
confirmed_row version row =
    put "version" (decimal (version +ℤ pos 1)) (put "state" (text "CONFIRMED") row)

abbrev confirmation : String → Review
confirmation campaign_id = record {
  campaign_id = campaign_id;
  action = "confirm";
  reason_code = "quality_verified";
}

abbrev publication : String → Review
publication campaign_id = record {
  campaign_id = campaign_id;
  action = "publish";
  reason_code = "privacy_verified";
}

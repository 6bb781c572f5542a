-- ===== src/Authority/Access/Sources.antt =====
-- `_validate_sources`: the forms of a source of access that the writers emit.
use amt_trust_check_radar_la.Base.{
  ℕ, ◌+◌, String, Bool, true, false, ◌&&◌, ◌||◌, not, none, some, List, [], ◌∷◌, ltb, ◌==◌,
  if◌then◌else◌, str_eq, ok, ◌>>=◌, ◌>>◌, raise_if, require,
}
use amt_trust_check_radar_la.Python.{
  Value, Dict, end, entry, lookup, remove, natural, text_of, dict_of, is_text, has_key, same_keys,
  matches, name_char,
}
use amt_trust_check_radar_la.Authority.Policy.{Result, trial_seconds, authority_state_invalid}
use amt_trust_check_radar_la.Authority.Usage.Row.{is_digest}
use amt_trust_check_radar_la.Authority.Grant.{
  Basis, paid, trial, complimentary, is_complimentary, is_positive_number,
}
use amt_trust_check_radar_la.Authority.Access.Effective.{is_none}

abbrev pub period_fields : List String
period_fields = "validFromEpoch" ∷ "validUntilEpoch" ∷ "periodId" ∷ "periodRevision" ∷ []

abbrev pub paid_fields : List String
paid_fields = "state" ∷ "store" ∷ "productId" ∷ "subscriptionDigest" ∷ "sourceRevision" ∷ []

abbrev pub funded_fields : List String
funded_fields =
    "state" ∷ "store" ∷ "productId" ∷ "subscriptionDigest" ∷ "sourceRevision" ∷ "validFromEpoch"
    ∷ "validUntilEpoch" ∷ "periodId" ∷ "periodRevision" ∷ []

abbrev text_matches : (String → Bool) → Value → Bool
text_matches p v = elim (text_of v) [ none ↦ false | some s ↦ p s ]

abbrev nonempty : String → Bool
nonempty s = not (str_eq s "")

abbrev is_active : Dict → Bool
is_active source = is_text "ACTIVE" (lookup "state" source)

abbrev is_inactive : Dict → Bool
is_inactive source = is_text "INACTIVE" (lookup "state" source)

-- the fields of a paid source but the one that may be left out
abbrev shape : Dict → Dict
shape source = remove "headTokenDigest" source

abbrev head_token_valid : Dict → Bool
head_token_valid source =
    not (has_key "headTokenDigest" source)
    || text_matches is_digest (lookup "headTokenDigest" source)

unfoldable pub is_paid_source : Dict → Bool
is_paid_source source =
    head_token_valid source
    && (same_keys (shape source) funded_fields
        || (same_keys (shape source) paid_fields && not (is_active source)))
    && (is_text "google_play" (lookup "store" source)
        || is_text "app_store" (lookup "store" source))
    && text_matches nonempty (lookup "productId" source)
    && text_matches is_digest (lookup "subscriptionDigest" source)
    && is_positive_number (lookup "sourceRevision" source)

abbrev is_trial : Basis → Bool
is_trial trial = true
is_trial _ = false

abbrev is_paid : Basis → Bool
is_paid paid = true
is_paid _ = false

-- An empty window is left only by a paid source that was shortened to its start.
abbrev end_fits : Basis → Bool → ℕ → ℕ → Bool
end_fits b inactive start e =
    (ltb start e || (start == e && is_paid b && inactive))
    && (not (is_trial b) || e == start + trial_seconds)

abbrev end_valid : Basis → Bool → ℕ → Value → Bool
end_valid b inactive start until =
    if is_none until
    then is_complimentary b
    else elim (natural until) [ none ↦ false | some e ↦ end_fits b inactive start e ]

unfoldable pub window_valid : Basis → Dict → Bool
window_valid b source = elim (natural (lookup "validFromEpoch" source)) [
  | none ↦ false
  | some start ↦ end_valid b (is_inactive source) start (lookup "validUntilEpoch" source)
]

unfoldable pub period_valid : Dict → Bool
period_valid source =
    text_matches (matches "" name_char 1 64) (lookup "periodId" source)
    && is_positive_number (lookup "periodRevision" source)

-- one source of each basis; a verified inactive subscription may never have had a funded period
unfoldable pub source_valid : Basis → Dict → Bool
source_valid paid source =
    is_paid_source source
    && (same_keys (shape source) paid_fields || (window_valid paid source && period_valid source))
source_valid trial source =
    same_keys source ("state" ∷ period_fields) && window_valid trial source && period_valid source
source_valid complimentary source =
    same_keys source ("state" ∷ "validFromEpoch" ∷ "validUntilEpoch" ∷ [])
    && window_valid complimentary source

abbrev pub basis_named : String → Basis
basis_named name =
    if str_eq name "paid" then paid else if str_eq name "trial" then trial else complimentary

unfoldable pub check_source : Basis → Value → Result Unit
check_source b v = do
  source ← require (dict_of v) authority_state_invalid
  raise_if (not (is_active source || is_inactive source)) authority_state_invalid
  raise_if (not (source_valid b source)) authority_state_invalid

unfoldable pub validate_sources : Dict → Result Unit
validate_sources end = ok tt
validate_sources (entry name source rest) =
    let others = validate_sources rest in check_source (basis_named name) source >> others

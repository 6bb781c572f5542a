-- ===== src/Review/Reviewer.antt =====
-- `_authorize`: the groups of the reviewer's verified token, as a list or as one text.
use Prim.Native.Char.{Char, code}
use Prim.Native.String
use amt_trust_check_radar_la.Base.{
  ℕ, ◌≡◌, refl, Bool, true, ◌&&◌, ◌||◌, List, map, leb, ◌==◌, if◌then◌else◌,
}
use amt_trust_check_radar_la.Python.{part_list, split, mem_key}

pub data Groups : Type 0 where
  listed : List String.String → Groups
  joined : String.String → Groups

-- `s.lstrip(chars)` and `s.rstrip(chars)`
abbrev lstrip : (ℕ → Bool) → String.String → String.String
lstrip p String.[] = String.[]
lstrip p (String.◌∷◌ c s) = let rest = lstrip p s in if p (code c) then rest else String.◌∷◌ c s

abbrev unless_empty : Bool → Char → String.String → String.String
unless_empty stripped c String.[] = if stripped then String.[] else String.◌∷◌ c String.[]
unless_empty stripped c (String.◌∷◌ d s) = String.◌∷◌ c (String.◌∷◌ d s)

abbrev rstrip : (ℕ → Bool) → String.String → String.String
rstrip p String.[] = String.[]
rstrip p (String.◌∷◌ c s) = unless_empty (p (code c)) c (rstrip p s)

-- `s.strip(chars)`
unfoldable pub strip : (ℕ → Bool) → String.String → String.String
strip p s = rstrip p (lstrip p s)

abbrev bracket : ℕ → Bool
bracket c = (c == b'[') || (c == b']')

-- the white space of `str.strip()`
abbrev space : ℕ → Bool
space c =
    (leb 9 c && leb c 13)
    || (leb 28 c && leb c 32)
    || (c == 133)
    || (c == 160)
    || (c == 5760)
    || (leb 8192 c && leb c 8202)
    || (c == 8232)
    || (c == 8233)
    || (c == 8239)
    || (c == 8287)
    || (c == 12288)

unfoldable pub groups_of : Groups → List String.String
unfolding strip split
groups_of (listed groups) = groups
groups_of (joined s) = map (strip space) (part_list (split b',' (strip bracket s)))

unfoldable pub is_authorized : Groups → String.String → Bool
unfolding groups_of
is_authorized groups group = mem_key group (groups_of groups)

joined_groups : is_authorized (joined "[admins, campaign-reviewers]") "campaign-reviewers" ≡ true
unfolding is_authorized
joined_groups = refl

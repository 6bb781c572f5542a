-- ===== src/Dynamo.antt =====
-- The requests that the code sends to DynamoDB, as data: conditions, attribute updates and the
-- actions of one `transact_write_items` call, with what the service documents that each does to
-- the one row that it names. The source writes the same as expression strings.
pub mod Spares
pub mod Puts
use amt_trust_check_radar_la.Base.{
  Bool, true, false, ◌&&◌, ◌||◌, not, ℕ, String, ◌≡◌, Option, none, some, List, [], ◌∷◌, arith,
}
use amt_trust_check_radar_la.Python.{
  has_key, value_eq, after, same_number, ℤ, pos, ◌+ℤ◌, Value, text, decimal, Dict, end, entry, null,
  value_or, get, put, remove, lookup, integral, natural,
}

pub record Key : Type 0 where
  pub pk : String
  pub sk : String

-- the dict of a key
abbrev pub key_dict : Key → Dict
key_dict k = entry "PK" (text k.pk) (entry "SK" (text k.sk) end)

pub data Condition : Type 0 where
  not_exists exists : String → Condition
  equals : String → Value → Condition
  below above at_least at_most : String → ℕ → Condition
  both either : Condition → Condition → Condition
  always : Condition

pub data Change : Type 0 where
  assign : String → Value → Change
  add : String → ℤ → Change
  discard : String → Change

-- A `Put` names its row by the item's own key.
pub data Action : Type 0 where
  condition_check delete : String → Key → Condition → Action
  put_item : String → Dict → Condition → Action
  update : String → Key → List Change → Condition → Action

-- `ADD` counts a missing attribute as 0 and fails on one that is no number.
unfoldable pub added : Option Value → ℤ → Option Value
added none n = some (decimal n)
added (some v) n = elim (integral v) [ none ↦ none | some m ↦ some (decimal (m +ℤ n)) ]

unfoldable pub change : Change → Dict → Option Dict
change (assign k v) d = some (put k v d)
change (add k n) d = elim (added (get k d) n) [ none ↦ none | some v ↦ some (put k v d) ]
change (discard k) d = some (remove k d)

unfoldable pub changes : List Change → Dict → Option Dict
changes [] d = some d
changes (c ∷ cs) d = elim (change c d) [ none ↦ none | some e ↦ changes cs e ]

-- What the named row is after the action, when it was `row` before and the condition held.
abbrev pub written : Action → Option Dict → Option Dict
written (condition_check table k c) row = row
written (delete table k c) row = none
written (put_item table item c) row = some item
written (update table k cs c) none = changes cs (key_dict k)
written (update table k cs c) (some row) = changes cs row

added-natural :
    (o : Option Value) (n : ℕ) (δ : ℤ)
    → natural (value_or o null) ≡ some n
    → added o δ ≡ some (decimal (pos n +ℤ δ))
unfolding natural added
added-natural none n δ h = cc
added-natural (some v) n δ h = ground arith

-- `ADD` to a number that is not negative
pub change-add :
    (k : String) (δ : ℤ) (n : ℕ) (d : Dict)
    → natural (lookup k d) ≡ some n
    → change (add k δ) d ≡ some (put k (decimal (pos n +ℤ δ)) d)
unfolding change
change-add k δ n d h = ground (arith, added-natural (get k d) n δ h)

pub changes-step :
    (c : Change) (cs : List Change) (d e : Dict)
    → change c d ≡ some e
    → changes (c ∷ cs) d ≡ changes cs e
unfolding changes
changes-step c cs d e h = ground arith

abbrev compare_number : (ℤ → Bool) → Value → Bool
compare_number p v = elim (integral v) [ none ↦ false | some n ↦ p n ]

abbrev row_of : Option Dict → Dict
row_of none = end
row_of (some d) = d

-- Whether a condition holds of the row that it is about, which may be missing. An attribute that
-- is missing, or that is no number, compares with none.
unfoldable pub holds : Condition → Option Dict → Bool
holds (not_exists k) row = not (has_key k (row_of row))
holds (exists k) row = has_key k (row_of row)
holds (equals k v) row = has_key k (row_of row) && value_eq v (lookup k (row_of row))
holds (below k n) row =
    compare_number (λ z. not (after z n) && not (same_number z (pos n))) (lookup k (row_of row))
holds (above k n) row = compare_number (λ z. after z n) (lookup k (row_of row))
holds (at_least k n) row =
    compare_number (λ z. after z n || same_number z (pos n)) (lookup k (row_of row))
holds (at_most k n) row = compare_number (λ z. not (after z n)) (lookup k (row_of row))
holds (both c d) row = holds c row && holds d row
holds (either c d) row = holds c row || holds d row
holds always row = true

abbrev text_or_empty : Value → String
text_or_empty (text s) = s
text_or_empty _ = ""

-- the row that an action names
abbrev pub key_of : Action → Key
key_of (condition_check table k c) = k
key_of (delete table k c) = k
key_of (put_item table item c) = record {
  pk = text_or_empty (lookup "PK" item);
  sk = text_or_empty (lookup "SK" item);
}
key_of (update table k cs c) = k

abbrev pub table_of : Action → String
table_of (condition_check table k c) = table
table_of (delete table k c) = table
table_of (put_item table item c) = table
table_of (update table k cs c) = table

abbrev pub condition_of : Action → Condition
condition_of (condition_check table k c) = c
condition_of (delete table k c) = c
condition_of (put_item table item c) = c
condition_of (update table k cs c) = c

-- ===== src/Python/Values.antt =====
-- Values with their run-time type, and dicts from texts to values. DynamoDB returns numbers as
-- `Decimal`: `decimal` is an integral one, and `other` any object of no other kind here, such as
-- a fraction, told apart by a number.
use amt_trust_check_radar_la.Base.{
  ℕ, suc, String, ◌≡◌, refl, Bool, true, false, ◌&&◌, ◌||◌, Option, none, some, List, [], ◌∷◌,
  str_eq, eq_iff, ◌==◌, if◌then◌else◌, any, arith,
}
use amt_trust_check_radar_la.Python.Int.{ℤ, pos, of_ℤ, same_number}

mutual
  pub data Value : Type 0 where
    null : Value
    bool : Bool → Value
    int : ℤ → Value
    decimal : ℤ → Value
    text : String → Value
    other : ℕ → Value
    dict : Dict → Value

  pub data Dict : Type 0 where
    end : Dict
    entry : String → Value → Dict → Dict

-- `row.get(k)`, with `none` for a missing key
abbrev pub get : String → Dict → Option Value
get k end = none
get k (entry j v d) = if str_eq j k then some v else get k d

abbrev pub IsAbsent : String → Dict → Type 0
IsAbsent k d = get k d ≡ none

-- A bool is an int to Python, and an integral Decimal equals its int.
abbrev number_of : Value → Option ℤ
number_of (bool true) = some (pos 1)
number_of (bool false) = some (pos 0)
number_of (int n) = some n
number_of (decimal n) = some n
number_of _ = none

abbrev same_numbers : Option ℤ → Option ℤ → Bool
same_numbers (some a) (some b) = same_number a b
same_numbers _ _ = false

abbrev size : Dict → ℕ
size end = 0
size (entry k v d) = suc (size d)

-- `a == b` on values
unfoldable mutual
  pub value_eq : Value → Value → Bool
  value_eq null null = true
  value_eq (text s) (text t) = str_eq s t
  value_eq (other a) (other b) = a == b
  value_eq (dict d) (dict e) = (size d == size e) && sub_dict d e
  value_eq v w = same_numbers (number_of v) (number_of w)

  -- every entry of the first dict is in the second
  pub sub_dict : Dict → Dict → Bool
  sub_dict end e = true
  sub_dict (entry k v d) e = elim (get k e) [ none ↦ false | some w ↦ value_eq v w ] && sub_dict d e

-- `integral(value)` of shared_check_authority/core.py
unfoldable pub integral : Value → Option ℤ
integral (int n) = some n
integral (decimal n) = some n
integral _ = none

abbrev nonnegative : Option ℤ → Option ℕ
nonnegative none = none
nonnegative (some n) = of_ℤ n

-- `integral(value)` followed by the test that it is not negative
unfoldable pub natural : Value → Option ℕ
unfolding integral
natural v = nonnegative (integral v)

abbrev pub value_or : Option Value → Value → Value
value_or none d = d
value_or (some v) d = v

-- `row.get(k)`, with Python's `None` for a missing key
abbrev pub lookup : String → Dict → Value
lookup k d = value_or (get k d) null

abbrev pub text_of : Value → Option String
text_of (text s) = some s
text_of _ = none

abbrev pub mem_key : String → List String → Bool
mem_key k ks = any (str_eq k) ks

abbrev pub keys_within : Dict → List String → Bool
keys_within end ks = true
keys_within (entry k v d) ks = mem_key k ks && keys_within d ks

abbrev pub has_key : String → Dict → Bool
has_key k end = false
has_key k (entry j v d) = str_eq j k || has_key k d

abbrev pub has_keys : List String → Dict → Bool
has_keys [] d = true
has_keys (k ∷ ks) d = has_key k d && has_keys ks d

-- `set(row) == {k, ...}`
unfoldable pub same_keys : Dict → List String → Bool
same_keys d ks = keys_within d ks && has_keys ks d

-- `dict(row, k=v)`: an old key keeps its place
abbrev pub put : String → Value → Dict → Dict
put k v end = entry k v end
put k v (entry j w d) = if str_eq j k then entry j v d else entry j w (put k v d)

pub get-put :
    (k j : String) (v : Value) (d : Dict)
    → get j (put k v d) ≡ (if str_eq k j then some v else get j d)
get-put k j v end = refl
get-put k j v (entry i w d) = ground (arith, eq_iff i k, eq_iff i j, eq_iff k j, get-put k j v d)

pub natural-nat : (n : ℕ) → natural (int (pos n)) ≡ some n
unfolding natural
natural-nat n = refl

-- `row.pop(k, None)`
abbrev pub remove : String → Dict → Dict
remove k end = end
remove k (entry j v d) = let rest = remove k d in if str_eq j k then rest else entry j v rest

usage_fields : same_keys (entry "b" null (entry "a" null end)) ("a" ∷ "b" ∷ []) ≡ true
unfolding same_keys
usage_fields = refl

mixed_numbers :
    value_eq (dict (entry "n" (decimal (pos 1)) end)) (dict (entry "n" (bool true) end)) ≡ true
unfolding value_eq
mixed_numbers = refl

abbrev pub dict_of : Value → Option Dict
dict_of (dict d) = some d
dict_of _ = none

-- `row.get(k) == s` for a text `s`
abbrev pub is_text : String → Value → Bool
is_text s (text t) = str_eq t s
is_text s _ = false

-- `row.get(k) == n` for a number `n` that is not negative
abbrev pub is_number : ℕ → Value → Bool
is_number n v = same_numbers (number_of v) (some (pos n))

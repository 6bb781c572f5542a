-- ===== src/Python/Writes.antt =====
-- A write of a key that a dict has: what the other reads and the set of keys become.
use amt_trust_check_radar_la.Base.{
  ℕ, String, ◌≡◌, refl, true, ◌||◌, some, List, [], ◌∷◌, str_eq, eq_iff, arith, Bool-cases, inl,
  inr,
}
use amt_trust_check_radar_la.Python.Values.{
  Value, Dict, end, entry, lookup, put, natural, has_key, has_keys, keys_within, same_keys,
}

-- a key under which a number is read is there
pub has_key-natural :
    (k : String) (d : Dict) (n : ℕ) → natural (lookup k d) ≡ some n → has_key k d ≡ true
unfolding natural
has_key-natural k end n h = cc
has_key-natural k (entry j v d) n h = ground (arith, has_key-natural k d n)

has_key-put :
    (k j : String) (v : Value) (d : Dict) → has_key j (put k v d) ≡ (str_eq k j || has_key j d)
has_key-put k j v end = refl
has_key-put k j v (entry i w d) =
    ground (arith, eq_iff i k, eq_iff i j, eq_iff k j, has_key-put k j v d)

keys_within-put :
    (k : String) (v : Value) (d : Dict) (ks : List String)
    → has_key k d ≡ true
    → keys_within (put k v d) ks ≡ keys_within d ks
keys_within-put k v end ks h = cc
keys_within-put k v (entry i w d) ks h = elim (Bool-cases (str_eq i k)) [
  | inl same ↦ rw same
  | inr differ ↦ ground (arith, keys_within-put k v d ks)
]

has_keys-put :
    (k : String) (v : Value) (d : Dict) (ks : List String)
    → has_key k d ≡ true
    → has_keys ks (put k v d) ≡ has_keys ks d
has_keys-put k v d [] h = refl
has_keys-put k v d (j ∷ ks) h =
    ground (arith, has_key-put k j v d, eq_iff k j, has_keys-put k v d ks h)

-- Writing a key that is there keeps the set of keys.
pub same_keys-put :
    (k : String) (v : Value) (d : Dict) (ks : List String)
    → has_key k d ≡ true
    → same_keys (put k v d) ks ≡ same_keys d ks
unfolding same_keys
same_keys-put k v d ks h = simp (keys_within-put k v d ks h, has_keys-put k v d ks h)

-- ===== src/Authority/Usage/Keys.antt =====
-- The keys of usage rows: `key` makes valid ones, and a checked row carries the key it was read by.
use amt_trust_check_radar_la.Base.{String, ◌≡◌, subst, ◌&◌, ℕ, Bool, true, ok, eq_iff, ◌>>=◌, arith}
use amt_trust_check_radar_la.Python.{
  Value, text, dict, Dict, lookup, same_keys, is_text, matches, hex, matches-append,
}
use amt_trust_check_radar_la.Dynamo.{Key, key_dict}
use amt_trust_check_radar_la.Authority.Usage.Row.{
  Usage, key, valid_key, usage_shape, is_usage_row, is_digest,
}
use amt_trust_check_radar_la.Authority.Usage.Writes.{Parts}
use amt_trust_check_radar_la.Authority.Usage.Counters.{own_key}

-- what a valid key is
pub valid_key-texts :
    (d : Dict) (k : Key)
    → valid_key (dict d) ≡ ok k
    → (lookup "PK" d ≡ text k.pk)
      × (lookup "SK" d ≡ text k.sk)
      × (matches "V1#PURCHASE_USAGE#" hex 64 64 k.pk ≡ true)
      × (matches "PERIOD#" hex 64 64 k.sk ≡ true)
unfolding valid_key
valid_key-texts d k h = ground arith

key_dict-valid :
    (k : Key)
    → matches "V1#PURCHASE_USAGE#" hex 64 64 k.pk ≡ true
    → matches "PERIOD#" hex 64 64 k.sk ≡ true
    → valid_key (dict (key_dict k)) ≡ ok k
unfolding valid_key same_keys
key_dict-valid k hp hs = ground arith

-- A key that was checked is valid as it is stored.
pub valid_key-key_dict :
    (v : Value) (k : Key) → valid_key v ≡ ok k → valid_key (dict (key_dict k)) ≡ ok k
unfolding valid_key
valid_key-key_dict (dict d) k h =
    let (_, _, hp, hs) = valid_key-texts d k h in key_dict-valid k hp hs
valid_key-key_dict _ k h = cc

-- the key that `key` makes
abbrev made : String → String → Key
made root order = record { pk = "V1#PURCHASE_USAGE#" & root; sk = "PERIOD#" & order }

key-inverse :
    (root order : String) (k : Key)
    → key root order ≡ ok k
    → (is_digest root ≡ true) × (is_digest order ≡ true) × (made root order ≡ k)
unfolding key
key-inverse root order k h = ground arith

-- `key` accepts two digests only, and what it makes of them passes `valid_key`.
pub key-valid :
    (root order : String) (k : Key)
    → key root order ≡ ok k
    → (is_digest root ≡ true) × (is_digest order ≡ true) × (valid_key (dict (key_dict k)) ≡ ok k)
key-valid root order k h =
    let (hr, ho, e) = key-inverse root order k h in
    (
      hr,
      ho,
      subst (λ x. valid_key (dict (key_dict x)) ≡ ok x) e
          (key_dict-valid (made root order) (matches-append "V1#PURCHASE_USAGE#" hex 64 64 root hr)
            (matches-append "PERIOD#" hex 64 64 order ho)),
    )

text-eq : (s : String) (v : Value) (t : String) → is_text s v ≡ true → v ≡ text t → t ≡ s
text-eq s v t h e = (eq_iff t s).0 (rw e at h)

shape-key :
    (k : Key) (row : Value) (d : Dict)
    → usage_shape k row ≡ ok d
    → (is_text k.pk (lookup "PK" d) ≡ true) × (is_text k.sk (lookup "SK" d) ≡ true)
unfolding usage_shape is_usage_row ◌>>=◌
shape-key k row d h = ground arith

-- The key that a checked row carries is the key that it was read by.
pub own_key-eq :
    (row pointer : Value) (now : ℕ) (expired : Bool) (u : Usage) (k : Key)
    → (p : Parts now expired row pointer u) → valid_key (dict (own_key u.row)) ≡ ok k
    → (k.pk ≡ p.key.pk) × (k.sk ≡ p.key.sk)
own_key-eq row pointer now expired u k p h =
    let (pk, sk, _, _) = valid_key-texts (own_key u.row) k h in
    let (hp, hs) = shape-key p.key row u.row p.shape_ok in
    (text-eq p.key.pk _ k.pk hp pk, text-eq p.key.sk _ k.sk hs sk)

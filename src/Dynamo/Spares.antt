-- ===== src/Dynamo/Spares.antt =====
-- Attributes that a list of changes leaves alone.
use amt_trust_check_radar_la.Base.{
  String, Bool, true, false, ◌&&◌, not, some, none, List, [], ◌∷◌, ◌≡◌, refl, ◌∙◌, subst, sym,
  str_eq, Option-cases, inl, inr, eq_iff, eq_refl, arith,
}
use amt_trust_check_radar_la.Python.{Value, Dict, end, entry, remove, get, put, get-put}
use amt_trust_check_radar_la.Dynamo.{
  Change, assign, discard, add, changes, change, changes-step, added,
}

pub some-same : {a b : Dict} → some a ≡ some b → a ≡ b
some-same e = cc

pub get-remove : (k j : String) (d : Dict) → str_eq k j ≡ false → get j (remove k d) ≡ get j d
get-remove k j end h = refl
get-remove k j (entry i v d) h =
    ground (arith, eq_iff i k, eq_iff i j, eq_iff k j, get-remove k j d)

abbrev pub target : Change → String
target (assign k v) = k
target (add k n) = k
target (discard k) = k

-- No change of the list is about the attribute.
abbrev pub spares : String → List Change → Bool
spares k [] = true
spares k (c ∷ cs) = not (str_eq (target c) k) && spares k cs

pub change-spares :
    (k : String) (c : Change) (d e : Dict)
    → str_eq (target c) k ≡ false
    → change c d ≡ some e
    → get k e ≡ get k d
unfolding change
change-spares k (assign j v) d e h r = ground (arith, get-put j k v d)
change-spares k (discard j) d e h r = ground (arith, get-remove j k d)
change-spares k (add j n) d e h r = elim (Option-cases (added (get j d) n)) [
  | inl a ↦ cc (rw (change, a) at r)
  | inr (v, a) ↦
      subst (λ x. get k x ≡ get k d) (some-same (rw (change, a) at r))
        (ground (arith, get-put j k v d))
]

pub set-put : (k : String) (v : Value) (d : Dict) → change (assign k v) d ≡ some (put k v d)
unfolding change
set-put k v d = refl

pub spares-parts :
    (k : String) (c : Change) (cs : List Change)
    → spares k (c ∷ cs) ≡ true
    → (str_eq (target c) k ≡ false) × (spares k cs ≡ true)
spares-parts k c cs h = ground arith

pub changes-spares :
    (k : String) (cs : List Change) (d e : Dict)
    → spares k cs ≡ true
    → changes cs d ≡ some e
    → get k e ≡ get k d
unfolding changes
changes-spares k [] d e h r = ground arith
changes-spares k (c ∷ cs) d e h r =
    let (first, rest) = spares-parts k c cs h in
    elim (Option-cases (change c d)) [
      | inl a ↦ cc (rw (changes, a) at r)
      | inr (x, a) ↦
          changes-spares k cs x e rest (rw (changes, a) at r) ∙ change-spares k c d x first a
    ]

-- A list that does not touch an attribute, after one that sets it.
pub changes-sets :
    (k : String) (v : Value) (cs : List Change) (d e : Dict)
    → spares k cs ≡ true
    → changes (assign k v ∷ cs) d ≡ some e
    → get k e ≡ some v
changes-sets k v cs d e h r =
    changes-spares k cs (put k v d) e h
      (sym (changes-step (assign k v) cs d (put k v d) (set-put k v d)) ∙ r)
    ∙ simp (get-put, eq_refl)

pub get-removed : (k : String) (d : Dict) → get k (remove k d) ≡ none
get-removed k end = refl
get-removed k (entry i v d) = ground (arith, get-removed k d)

-- the first of two writes of other attributes
pub changes-first :
    (k j : String) (v w : Value) (cs : List Change) (d e : Dict)
    → str_eq j k ≡ false
    → spares k cs ≡ true
    → changes (assign k v ∷ assign j w ∷ cs) d ≡ some e
    → get k e ≡ some v
changes-first k j v w cs d e differ h r = changes-sets k v (assign j w ∷ cs) d e (ground arith) r

pub changes-second :
    (k j : String) (v w : Value) (cs : List Change) (d e : Dict)
    → spares j cs ≡ true
    → changes (assign k v ∷ assign j w ∷ cs) d ≡ some e
    → get j e ≡ some w
changes-second k j v w cs d e h r =
    changes-sets j w cs (put k v d) e h
      (sym (changes-step (assign k v) (assign j w ∷ cs) d (put k v d) (set-put k v d)) ∙ r)

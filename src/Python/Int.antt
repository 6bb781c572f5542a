-- ===== src/Python/Int.antt =====
-- Python's signed integers.
use amt_trust_check_radar_la.Base.{
  ℕ, suc, ◌+◌, ◌-◌, ◌≡◌, Option, none, some, Bool, true, false, ltb, leb, ◌==◌, if◌then◌else◌,
  arith,
}

-- `negsuc n` is -(n + 1)
pub data ℤ : Type 0 where
  pos : ℕ → ℤ
  negsuc : ℕ → ℤ

infixl 65 ◌+ℤ◌
abbrev pub ◌+ℤ◌ : ℤ → ℤ → ℤ
pos a +ℤ pos b = pos (a + b)
pos a +ℤ negsuc b = if ltb b a then pos (a - suc b) else negsuc (b - a)
negsuc a +ℤ pos b = if ltb a b then pos (b - suc a) else negsuc (a - b)
negsuc a +ℤ negsuc b = negsuc (suc (a + b))

-- the number, if it is not negative
abbrev pub of_ℤ : ℤ → Option ℕ
of_ℤ (pos n) = some n
of_ℤ (negsuc n) = none

abbrev pub same_number : ℤ → ℤ → Bool
same_number (pos a) (pos b) = a == b
same_number (negsuc a) (negsuc b) = a == b
same_number (pos a) (negsuc b) = false
same_number (negsuc a) (pos b) = false

pub of_ℤ-some : (z : ℤ) (n : ℕ) → of_ℤ z ≡ some n → z ≡ pos n
of_ℤ-some (pos m) n h = ground arith
of_ℤ-some (negsuc m) n h = cc

-- comparisons with a clock, which is not negative
abbrev pub at_most : ℤ → ℕ → Bool
at_most (pos a) n = leb a n
at_most (negsuc a) n = true

abbrev pub after : ℤ → ℕ → Bool
after (pos a) n = ltb n a
after (negsuc a) n = false

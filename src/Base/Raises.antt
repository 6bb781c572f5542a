-- ===== src/Base/Raises.antt =====
-- The outcome of code that may raise: a value, or the error that was raised.
use mathlib.Core.Path.{◌≡◌, refl, ◌∙◌, subst}
use mathlib.Core.Bool.{Bool, true, false}
use mathlib.Core.Option.{Option, none, some}
use amt_trust_check_radar_la.Base.Tests.{if◌then◌else◌}

pub data Outcome {ℓ} (E : Type ℓ) (A : Type ℓ) : Type ℓ where
  ok : A → Outcome E A
  err : E → Outcome E A

pub ok-injective : {E A : Type 0} {a b : A} → ◌≡◌ {A = Outcome E A} (ok a) (ok b) → a ≡ b
ok-injective e = cc

module _ {E : Type 0} where
  -- `if c: raise e`
  unfoldable pub raise_if : Bool → E → Outcome E Unit
  raise_if true e = err e
  raise_if false e = ok tt

  -- a value that must be there
  unfoldable pub require : {A : Type 0} → Option A → E → Outcome E A
  require none e = err e
  require (some a) e = ok a

infixl 5 ◌>>=◌ ◌>>◌
-- Opening this opens `raise_if` and `require` too.
unfoldable pub ◌>>=◌ : {E A B : Type 0} → Outcome E A → (A → Outcome E B) → Outcome E B
unfolding raise_if require
ok a >>= f = f a
err e >>= f = err e

abbrev pub ◌>>◌ : {E A B : Type 0} → Outcome E A → Outcome E B → Outcome E B
m >> k = m >>= λ _. k

-- Every value that `m` returns satisfies `P`, proved by one rule for each way to build `m`.
pub record Ensures {E A : Type 0} (P : A → Type 0) (m : Outcome E A) : Type 0 where
  pub at : (a : A) → m ≡ ok a → P a

module _ {E B : Type 0} {P : B → Type 0} where
  pub Ensures-ok : (b : B) → P b → Ensures {E = E} P (ok b)
  Ensures-ok b p = record { at = λ a e. subst P (ok-injective e) p }

  pub Ensures-err : (e : E) → Ensures P (err e)
  Ensures-err e = record { at = λ a h. cc }

  pub Ensures-bind :
      {A : Type 0} (m : Outcome E A) (f : A → Outcome E B)
      → ((a : A) → m ≡ ok a → Ensures P (f a))
      → Ensures P (m >>= f)
  unfolding ◌>>=◌
  Ensures-bind (ok a) f k = k a refl
  Ensures-bind (err e) f k = Ensures-err e

  pub Ensures-require :
      {A : Type 0} (o : Option A) (e : E) (f : A → Outcome E B)
      → ((a : A) → o ≡ some a → Ensures P (f a))
      → Ensures P (require o e >>= f)
  unfolding ◌>>=◌
  Ensures-require none e f k = Ensures-err e
  Ensures-require (some a) e f k = k a refl

  pub Ensures-raise_if :
      (c : Bool) (e : E) (m : Outcome E B)
      → (c ≡ false → Ensures P m)
      → Ensures P (raise_if c e >> m)
  unfolding ◌>>=◌
  Ensures-raise_if true e m k = Ensures-err e
  Ensures-raise_if false e m k = k refl

  pub Ensures-if :
      (c : Bool) (m n : Outcome E B)
      → (c ≡ true → Ensures P m)
      → (c ≡ false → Ensures P n)
      → Ensures P (if c then m else n)
  Ensures-if true m n k j = k refl
  Ensures-if false m n k j = j refl

  pub Ensures-option :
      {A : Type 0} (o : Option A) (m : Outcome E B) (f : A → Outcome E B)
      → (o ≡ none → Ensures P m)
      → ((a : A) → o ≡ some a → Ensures P (f a))
      → Ensures P (elim o [ none ↦ m | some a ↦ f a ])
  Ensures-option none m f k j = k refl
  Ensures-option (some a) m f k j = j a refl

module _ {E : Type 0} where
  -- the step of a proof that code returns: each check passes in turn
  pub bind-ok :
      {A B : Type 0} {m : Outcome E A} {a : A} (f : A → Outcome E B) → m ≡ ok a → (m >>= f) ≡ f a
  unfolding ◌>>=◌
  bind-ok f h = rw h

  pub require-some :
      {A B : Type 0} {o : Option A} {a : A} (e : E) (f : A → Outcome E B)
      → o ≡ some a
      → (require o e >>= f) ≡ f a
  unfolding ◌>>=◌
  require-some e f h = rw h

  pub raise_if-false :
      {B : Type 0} {c : Bool} (e : E) (m : Outcome E B) → c ≡ false → (raise_if c e >> m) ≡ m
  unfolding ◌>>=◌
  raise_if-false e m h = rw h

-- what code that returned has passed
module _ {E B : Type 0} {b : B} where
  pub bind-inverse :
      {A : Type 0} (m : Outcome E A) (f : A → Outcome E B)
      → (m >>= f) ≡ ok b
      → (a : A) × (m ≡ ok a) × (f a ≡ ok b)
  unfolding ◌>>=◌
  bind-inverse (ok a) f h = (a, refl, h)
  bind-inverse (err e) f h = cc

  pub require-inverse :
      {A : Type 0} (o : Option A) (e : E) (f : A → Outcome E B)
      → (require o e >>= f) ≡ ok b
      → (a : A) × (o ≡ some a) × (f a ≡ ok b)
  unfolding ◌>>=◌
  require-inverse none e f h = cc
  require-inverse (some a) e f h = (a, refl, h)

  pub raise_if-inverse :
      (c : Bool) (e : E) (m : Outcome E B) → (raise_if c e >> m) ≡ ok b → (c ≡ false) × (m ≡ ok b)
  unfolding ◌>>=◌
  raise_if-inverse true e m h = cc
  raise_if-inverse false e m h = (refl, h)

-- The code returns.
abbrev pub Returns : {E A : Type 0} → Outcome E A → Type 0
Returns {A} m = (a : A) × (m ≡ ok a)

module _ {E B : Type 0} where
  pub Returns-bind :
      {A : Type 0} (m : Outcome E A) (f : A → Outcome E B)
      → Returns m
      → ((a : A) → m ≡ ok a → Returns (f a))
      → Returns (m >>= f)
  Returns-bind m f (a, h) k = let (b, hb) = k a h in (b, bind-ok f h ∙ hb)

  pub Returns-require :
      {A : Type 0} (o : Option A) (e : E) (f : A → Outcome E B) {a : A}
      → o ≡ some a
      → Returns (f a)
      → Returns (require o e >>= f)
  Returns-require o e f h (b, hb) = (b, require-some e f h ∙ hb)

  pub Returns-raise_if :
      (c : Bool) (e : E) (m : Outcome E B) → c ≡ false → Returns m → Returns (raise_if c e >> m)
  Returns-raise_if c e m h (b, hb) = (b, raise_if-false e m h ∙ hb)

  pub Returns-if :
      (c : Bool) (m n : Outcome E B)
      → (c ≡ true → Returns m)
      → (c ≡ false → Returns n)
      → Returns (if c then m else n)
  Returns-if true m n k j = k refl
  Returns-if false m n k j = j refl

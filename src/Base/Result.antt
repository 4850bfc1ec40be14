-- ===== src/Base/Result.antt =====
-- Code that returns a value or throws.
use mathlib.Core.Path.{◌≡◌, refl}
use mathlib.Core.Bool.{Bool, true, false, ◌&&◌}
use mathlib.Core.Logic.{◌⊎◌, inl, inr}

pub data Result {ℓ κ} (E : Type ℓ) (A : Type κ) : Type (ℓ ⊔ κ) where
  ok : A → Result E A
  err : E → Result E A

infixl 5 ◌>>=◌ ◌>>◌
abbrev pub ◌>>=◌ {ℓ κ μ} :
    {E : Type ℓ} {A : Type κ} {B : Type μ} → Result E A → (A → Result E B) → Result E B
ok a >>= f = f a
err e >>= f = err e

abbrev pub ◌>>◌ {ℓ κ} : {E : Type ℓ} {B : Type κ} → Result E (Unit {0}) → Result E B → Result E B
m >> k = m >>= λ _. k

-- `if (test) throw e`.
abbrev pub throw_if {ℓ} : {E : Type ℓ} → Bool → E → Result E (Unit {0})
throw_if true e = err e
throw_if false e = ok tt

abbrev pub is_ok {ℓ κ} : {E : Type ℓ} {A : Type κ} → Result E A → Bool
is_ok (ok a) = true
is_ok (err e) = false

module _ {ℓ κ} {E : Type ℓ} {A : Type κ} where
  pub Result-cases : (r : Result E A) → ((a : A) × (r ≡ ok a)) ⊎ ((e : E) × (r ≡ err e))
  Result-cases (ok a) = inl (a, refl)
  Result-cases (err e) = inr (e, refl)

  -- What a successful chain gives, with the intermediate value kept abstract.
  pub >>=-elim {μ ν} :
      {B : Type μ} {P : Type ν} (m : Result E A) (f : A → Result E B) {b : B}
      → (m >>= f) ≡ ok b
      → ((a : A) → m ≡ ok a → f a ≡ ok b → P)
      → P
  >>=-elim (ok a) f h k = k a refl h
  >>=-elim (err e) f h k = absurd (cc)

  pub throw_if-elim {ν} :
      {P : Type ν} (test : Bool) (e : E) (m : Result E A) {a : A}
      → (throw_if test e >> m) ≡ ok a
      → (test ≡ false → m ≡ ok a → P)
      → P
  throw_if-elim true e m h k = absurd (cc)
  throw_if-elim false e m h k = k refl h

  pub ok-injective : {a b : A} → ◌≡◌ {A = Result E A} (ok a) (ok b) → a ≡ b
  ok-injective h = cc

  pub is_ok-bind {μ} :
      {B : Type μ} (m : Result E A) (f : A → Result E B) (c : Bool)
      → ((a : A) → m ≡ ok a → is_ok (f a) ≡ c)
      → is_ok (m >>= f) ≡ (is_ok m && c)
  is_ok-bind (ok a) f c h = h a refl
  is_ok-bind (err e) f c h = refl

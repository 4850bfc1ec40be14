-- ===== src/Base/Members.antt =====
-- Membership in a list, and the Boolean tests that decide it.
use mathlib.Core.Path.{◌≡◌, refl, sym, subst}
use mathlib.Core.Option.{some-injective}
use mathlib.Core.List.{List, [], ◌∷◌, Memᴰ}
use booking_lumin_checkout.Base.{
  String, Bool, true, false, ◌==◌, none, some, All, any, find, inl, inr, Bool-cases, arith,
  any_sound, eq_iff,
}

-- `includes` on texts.
pub any-member : (xs : List String) (x : String) → any (λ c. c == x) xs ≡ true → Memᴰ x xs
any-member xs x t =
    let (y, m, e) = any_sound (λ c. c == x) xs t in subst (λ z. Memᴰ z xs) ((eq_iff y x).0 e) m

module _ {ℓ} {A : Type ℓ} where
  pub member-any : (p : A → Bool) {x : A} (xs : List A) → Memᴰ x xs → p x ≡ true → any p xs ≡ true
  member-any p [] m h = elim m [ ]
  member-any p (y ∷ ys) (Memᴰ.head e) h = let h' = subst (λ z. p z ≡ true) e h in rw h' refl
  member-any p (y ∷ ys) (Memᴰ.tail m) h = let rest = member-any p ys m h in ground arith

  -- What is found is a member that passes the test.
  pub find_sound :
      (p : A → Bool) (xs : List A) {x : A} → find p xs ≡ some x → Memᴰ x xs × (p x ≡ true)
  find_sound p [] h = absurd (cc)
  find_sound p (y ∷ ys) h = elim (Bool-cases (p y)) [
    | inl e ↦
        let same = some-injective _ _ (rw e at h) in
        (Memᴰ.head (sym same), subst (λ z. p z ≡ true) same e)
    | inr e ↦ let (m, q) = find_sound p ys (rw e at h) in (Memᴰ.tail m, q)
  ]

  pub find-none : (p : A → Bool) (xs : List A) → find p xs ≡ none → All (λ x. p x ≡ false) xs
  find-none p [] h = tt
  find-none p (y ∷ ys) h = elim (Bool-cases (p y)) [
    | inl e ↦ absurd (let h' = rw e at h in cc)
    | inr e ↦ (e, find-none p ys (rw e at h))
  ]

-- ===== src/Pricing/Permuted.antt =====
-- packages/core/src/pricing.ts: the tests on a list of ids that its order does not change.
use booking_lumin_checkout.Base.{
  ◌≡◌, refl, ap, ap₂, ◌∙◌, String, Bool, not, ◌&&◌, ◌||◌, ◌==◌, List, [], ◌∷◌, arith, any, all,
  eq_iff,
}
use mathlib.Core.List.{Permᴰ}
use booking_lumin_checkout.Pricing.Acceptance.{distinct}
use booking_lumin_checkout.Pricing.Order.{SameChoices}

pub all_Perm : (p : String → Bool) {xs ys : List String} → Permᴰ xs ys → all p xs ≡ all p ys
all_Perm p Permᴰ.nil = refl
all_Perm p (Permᴰ.cons {l₁} {l₂} e d) = ap₂ (λ x b. p x && b) e (all_Perm p d)
all_Perm p (Permᴰ.swap {a} {b} {l = l} e f) =
    swap_and (p a) (p b) (all p l) ∙ ap₂ (λ x y. p x && (p y && all p l)) f e
  where
    swap_and : (a b c : Bool) → (a && (b && c)) ≡ (b && (a && c))
    swap_and a b c = ground arith
all_Perm p (Permᴰ.trans d e) = all_Perm p d ∙ all_Perm p e

pub any_Perm : (p : String → Bool) {xs ys : List String} → Permᴰ xs ys → any p xs ≡ any p ys
any_Perm p Permᴰ.nil = refl
any_Perm p (Permᴰ.cons {l₁} {l₂} e d) = ap₂ (λ x b. p x || b) e (any_Perm p d)
any_Perm p (Permᴰ.swap {a} {b} {l = l} e f) =
    swap_or (p a) (p b) (any p l) ∙ ap₂ (λ x y. p x || (p y || any p l)) f e
  where
    swap_or : (a b c : Bool) → (a || (b || c)) ≡ (b || (a || c))
    swap_or a b c = ground arith
any_Perm p (Permᴰ.trans d e) = any_Perm p d ∙ any_Perm p e

distinct_seen :
    (seen seen' ids : List String) → SameChoices seen seen' → distinct seen ids ≡ distinct seen' ids
distinct_seen seen seen' [] h = refl
distinct_seen seen seen' (x ∷ ids) h =
    ap₂ (λ a b. not a && b) (h x)
      (distinct_seen (x ∷ seen) (x ∷ seen') ids (λ id. ap (λ b. (x == id) || b) (h id)))

eq_comm : (x y : String) → (x == y) ≡ (y == x)
eq_comm x y = ground (arith, eq_iff x y, eq_iff y x)

swap_seen :
    (x y : String) (seen ids : List String)
    → distinct seen (x ∷ (y ∷ ids)) ≡ distinct seen (y ∷ (x ∷ ids))
swap_seen x y seen ids =
    let later =
      distinct_seen (y ∷ (x ∷ seen)) (x ∷ (y ∷ seen)) ids
        (λ id. swap_or (y == id) (x == id) (any (λ s. s == id) seen)) in
    ap₂ (λ a b. not (any (λ s. s == x) seen) && (not (a || any (λ s. s == y) seen) && b))
      (eq_comm x y) later
    ∙ swap_not (any (λ s. s == x) seen) (any (λ s. s == y) seen) (y == x) _
  where
    swap_or : (a b c : Bool) → (a || (b || c)) ≡ (b || (a || c))
    swap_or a b c = ground arith

    swap_not : (a b e d : Bool) → (not a && (not (e || b) && d)) ≡ (not b && (not (e || a) && d))
    swap_not a b e d = ground arith

pub distinct_Perm :
    {xs ys : List String} → Permᴰ xs ys → (seen : List String) → distinct seen xs ≡ distinct seen ys
distinct_Perm Permᴰ.nil seen = refl
distinct_Perm (Permᴰ.cons {a} {b} {l₁} {l₂} e d) seen =
    ap₂ (λ p q. not p && q) (ap (λ x. any (λ s. s == x) seen) e)
      (distinct_Perm d (a ∷ seen) ∙ ap (λ x. distinct (x ∷ seen) l₂) e)
distinct_Perm (Permᴰ.swap {a} {b} {l = l} e f) seen =
    swap_seen a b seen l ∙ ap₂ (λ x y. distinct seen (x ∷ (y ∷ l))) f e
distinct_Perm (Permᴰ.trans d e) seen = distinct_Perm d seen ∙ distinct_Perm e seen

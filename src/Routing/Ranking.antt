-- ===== src/Routing/Ranking.antt =====
-- packages/payments/src/routing.ts: the sort of the candidates by rank.
use booking_lumin_checkout.Base.{
  ℕ, ◌≤◌, ◌≡◌, refl, subst, inl, inr, Bool, true, false, Option, some, List, [], ◌∷◌, arith, length,
  keep, find, All, All-imp, Bool-cases, nat_eq,
}
use mathlib.Core.List.{Memᴰ}
use mathlib.Core.Option.{some-injective}
use booking_lumin_checkout.Base.Int.{pos, ◌-ℤ◌, leb_ℤ, -ℤ_parts}
use booking_lumin_checkout.Routing.{PaymentMethod, ProviderCapability, presents, rank, insert, sort}

pub All-self : {A : Type 0} (xs : List A) → All (λ x. Memᴰ x xs) xs
All-self [] = tt
All-self (x ∷ xs) = (Memᴰ.head refl, All-imp _ _ xs (λ y m. Memᴰ.tail m) (All-self xs))

pub find-All :
    {A : Type 0} (P : A → Type 0) (p : A → Bool) (xs : List A) {x : A}
    → All P xs
    → find p xs ≡ some x
    → P x
find-All P p [] h e = absurd (cc)
find-All P p (y ∷ ys) (q, h) e = elim (Bool-cases (p y)) [
  | inl t ↦ subst P (some-injective _ _ (rw t at e)) q
  | inr t ↦ find-All P p ys h (rw t at e)
]

pub insert-All :
    (P : ProviderCapability → Type 0) (method : Option PaymentMethod) (c : ProviderCapability)
    (cs : List ProviderCapability)
    → P c
    → All P cs
    → All P (insert method c cs)
unfolding insert
insert-All P method c [] p h = (p, tt)
insert-All P method c (d ∷ ds) p (q, h) = elim (Bool-cases (leb_ℤ (rank method c d) (pos 0))) [
  | inl e ↦ rw e (p, (q, h))
  | inr e ↦ rw e (q, insert-All P method c ds p h)
]

pub sort-All :
    (P : ProviderCapability → Type 0) (method : Option PaymentMethod) (cs : List ProviderCapability)
    → All P cs
    → All P (sort method cs)
unfolding sort
sort-All P method [] h = tt
sort-All P method (c ∷ cs) (p, h) =
    insert-All P method c (sort method cs) p (sort-All P method cs h)

-- The number of countries a provider serves.
abbrev pub breadth : ProviderCapability → ℕ
breadth c = length c.countries

pub rank-breadth :
    (method : Option PaymentMethod) (c d : ProviderCapability)
    → presents c method ≡ true
    → presents d method ≡ true
    → (leb_ℤ (rank method c d) (pos 0) ≡ true → breadth c ≤ breadth d)
      × (leb_ℤ (rank method c d) (pos 0) ≡ false → breadth d ≤ breadth c)
unfolding rank
rank-breadth method c d p q = elim (Bool-cases (nat_eq (breadth c) (breadth d))) [
  | inl e ↦ (λ _. ground arith, λ _. ground arith)
  | inr e ↦
      let value : rank method c d ≡ pos (breadth c) -ℤ pos (breadth d) = rw (p, q, e, rank) refl in
      (
        λ h.
            (let h' = rw value at h in
              ground (arith, -ℤ_parts (pos (breadth c)) (pos (breadth d)))),
        λ h.
            (let h' = rw value at h in
              ground (arith, -ℤ_parts (pos (breadth c)) (pos (breadth d)))),
      )
]

-- The first of a list serves as few countries as any of it.
unfoldable pub LeastFirst : List ProviderCapability → Type 0
LeastFirst [] = Unit
LeastFirst (d ∷ ds) = All (λ e. breadth d ≤ breadth e) (d ∷ ds)

insert-LeastFirst :
    (method : Option PaymentMethod) (c : ProviderCapability) (cs : List ProviderCapability)
    → presents c method ≡ true
    → All (λ d. presents d method ≡ true) cs
    → LeastFirst cs
    → LeastFirst (insert method c cs)
unfolding insert LeastFirst
insert-LeastFirst method c [] p q h = (omega arith, tt)
insert-LeastFirst method c (d ∷ ds) p (q, qs) (self, h) =
    let (less, more) = rank-breadth method c d p q in
    elim (Bool-cases (leb_ℤ (rank method c d) (pos 0))) [
      | inl e ↦
          let first = less e in
          rw e (
            omega arith,
            (first, All-imp (λ x. breadth d ≤ breadth x) _ ds (λ x le. omega arith) h),
          )
      | inr e ↦ rw e (self, insert-All (λ x. breadth d ≤ breadth x) method c ds (more e) h)
    ]

pub sort-LeastFirst :
    (method : Option PaymentMethod) (cs : List ProviderCapability)
    → All (λ d. presents d method ≡ true) cs
    → LeastFirst (sort method cs)
unfolding sort LeastFirst
sort-LeastFirst method [] q = tt
sort-LeastFirst method (c ∷ cs) (q, qs) =
    insert-LeastFirst method c (sort method cs) q (sort-All _ method cs qs)
      (sort-LeastFirst method cs qs)

insert_inverse :
    (P : ProviderCapability → Type 0) (method : Option PaymentMethod) (c : ProviderCapability)
    (cs : List ProviderCapability)
    → All P (insert method c cs)
    → P c × All P cs
unfolding insert
insert_inverse P method c [] h = h
insert_inverse P method c (d ∷ ds) h = elim (Bool-cases (leb_ℤ (rank method c d) (pos 0))) [
  | inl e ↦ rw e at h
  | inr e ↦
      let (q, rest) : P d × All P (insert method c ds) = rw e at h in
      let (p, qs) = insert_inverse P method c ds rest in (p, (q, qs))
]

pub sort_inverse :
    (P : ProviderCapability → Type 0) (method : Option PaymentMethod) (cs : List ProviderCapability)
    → All P (sort method cs)
    → All P cs
unfolding sort
sort_inverse P method [] h = tt
sort_inverse P method (c ∷ cs) h =
    let (p, rest) = insert_inverse P method c (sort method cs) h in
    (p, sort_inverse P method cs rest)

pub keep_inverse :
    (P : ProviderCapability → Type 0) (p : ProviderCapability → Bool) (cs : List ProviderCapability)
    → All P (keep p cs)
    → All (λ c. p c ≡ true → P c) cs
keep_inverse P p [] h = tt
keep_inverse P p (c ∷ cs) h = elim (Bool-cases (p c)) [
  | inl e ↦ let (q, qs) : P c × All P (keep p cs) = rw e at h in (λ _. q, keep_inverse P p cs qs)
  | inr e ↦ (λ t. absurd (cc), keep_inverse P p cs (rw e at h))
]

pub keep_both :
    (P : ProviderCapability → Type 0) (p : ProviderCapability → Bool) (cs : List ProviderCapability)
    → All P cs
    → All (λ c. P c × (p c ≡ true)) (keep p cs)
keep_both P p [] h = tt
keep_both P p (c ∷ cs) (q, qs) = elim (Bool-cases (p c)) [
  | inl e ↦ rw e ((q, e), keep_both P p cs qs)
  | inr e ↦ rw e (keep_both P p cs qs)
]

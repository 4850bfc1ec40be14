-- ===== src/Availability/Slots/Holds.antt =====
-- packages/core/src/availability.ts: the holds of a query as the engine counts them.
use booking_lumin_checkout.Base.{
  ℕ, suc, ◌≡◌, refl, subst, ◌⊎◌, inl, inr, none, some, List, [], ◌∷◌, arith, All, Bool-cases,
  Option-cases,
}
use mathlib.Core.List.{Memᴰ}
use mathlib.Core.Option.{some-injective}
use booking_lumin_checkout.Base.Int.{ℤ, ◌≤ℤ◌, ◌<ℤ◌, leb_ℤ}
use booking_lumin_checkout.Contracts.Availability.{CapacityHold}
use booking_lumin_checkout.Availability.Dates.{Platform}
use booking_lumin_checkout.Availability.Slots.{
  Span, Capacities, overlaps, consumed, insert_start, sort_starts, read_holds,
}

insert_start-All :
    (P : ℤ × ℕ → Type 0) (t : ℤ) (c : ℕ) (m : Capacities)
    → P (t, c)
    → All P m
    → All P (insert_start t c m)
unfolding insert_start
insert_start-All P t c [] p h = (p, tt)
insert_start-All P t c ((s, k) ∷ m) p (here, later) = elim (Bool-cases (leb_ℤ t s)) [
  | inl e ↦ rw e (p, (here, later))
  | inr e ↦ rw e (here, insert_start-All P t c m p later)
]

pub sort_starts-All : (P : ℤ × ℕ → Type 0) (m : Capacities) → All P m → All P (sort_starts m)
unfolding sort_starts
sort_starts-All P [] h = tt
sort_starts-All P ((t, c) ∷ m) (p, h) =
    insert_start-All P t c (sort_starts m) p (sort_starts-All P m h)

members_within :
    {all : Capacities} (m : Capacities)
    → ((e : ℤ × ℕ) → Memᴰ e m → Memᴰ e all)
    → All (λ e. Memᴰ e all) m
members_within [] f = tt
members_within (e ∷ m) f = (f e (Memᴰ.head refl), members_within m (λ x k. f x (Memᴰ.tail k)))

pub members_in : (m : Capacities) → All (λ e. Memᴰ e m) m
members_in m = members_within m (λ e x. x)

module _ (platform : Platform) where
  open platform use {parse}

  -- Every hold can be read, and `n` of them overlap the time from `start` to `end`, half-open.
  pub data Overlapping (start end : ℤ) : List CapacityHold → ℕ → Type 0 where
    no_more : Overlapping start end [] 0
    counts :
        {h : CapacityHold} {hs : List CapacityHold} {n : ℕ} {from to : ℤ}
        → parse h.start ≡ some from
        → parse h.end ≡ some to
        → from <ℤ end
        → start <ℤ to
        → Overlapping start end hs n
        → Overlapping start end (h ∷ hs) (suc n)
    apart :
        {h : CapacityHold} {hs : List CapacityHold} {n : ℕ} {from to : ℤ}
        → parse h.start ≡ some from
        → parse h.end ≡ some to
        → (end ≤ℤ from) ⊎ (to ≤ℤ start)
        → Overlapping start end hs n
        → Overlapping start end (h ∷ hs) n

  consumed-add :
      (start end from to : ℤ) (h : CapacityHold) (hs : List CapacityHold) (rest : List Span)
      → parse h.start ≡ some from
      → parse h.end ≡ some to
      → Overlapping start end hs (consumed rest start end)
      → Overlapping start end
          (h ∷ hs)
          (consumed (record { start = from; end = to } ∷ rest) start end)
  unfolding consumed
  consumed-add start end from to h hs rest a b k =
      let span : Span = record { start = from; end = to } in
      elim (Bool-cases (overlaps span start end)) [
        | inl e ↦ rw e (Overlapping.counts a b (ground arith) (ground arith) k)
        | inr e ↦ rw e (Overlapping.apart a b (ground arith) k)
      ]

  -- The holds that the engine counts against a slot.
  pub read_holds-Overlapping :
      (start end : ℤ) (hs : List CapacityHold) {holds : List Span}
      → read_holds platform hs ≡ some holds
      → Overlapping start end hs (consumed holds start end)
  unfolding read_holds consumed
  read_holds-Overlapping start end [] h =
      subst (λ x. Overlapping start end [] (consumed x start end)) (some-injective _ _ h)
        Overlapping.no_more
  read_holds-Overlapping start end (x ∷ xs) h = elim (Option-cases (parse x.start)) [
    | inl a ↦ absurd (let h' = rw (a, read_holds) at h in cc)
    | inr (from, a) ↦ elim (Option-cases (parse x.end)) [
      | inl b ↦ absurd (let h' = rw (a, b, read_holds) at h in cc)
      | inr (to, b) ↦ elim (Option-cases (read_holds platform xs)) [
        | inl c ↦ absurd (let h' = rw (a, b, c, read_holds) at h in cc)
        | inr (rest, c) ↦
            subst (λ hs. Overlapping start end (x ∷ xs) (consumed hs start end))
              (some-injective _ _ (rw (a, b, c, read_holds) at h))
              (consumed-add start end from to x xs rest a b (read_holds-Overlapping start end xs c))
      ]
    ]
  ]

  -- One hold that cannot be read is enough.
  pub read_holds_unread :
      (hs : List CapacityHold) {h : CapacityHold}
      → Memᴰ h hs
      → (parse h.start ≡ none) ⊎ (parse h.end ≡ none)
      → read_holds platform hs ≡ none
  unfolding read_holds
  read_holds_unread [] m u = elim m [ ]
  read_holds_unread (x ∷ xs) (Memᴰ.head same) u = unread (subst Unread same u)
    where
      Unread : CapacityHold → Type 0
      Unread h = (parse h.start ≡ none) ⊎ (parse h.end ≡ none)

      unread : Unread x → read_holds platform (x ∷ xs) ≡ none
      unread u = ground arith
  read_holds_unread (x ∷ xs) (Memᴰ.tail m) u = let rest = read_holds_unread xs m u in ground arith

-- ===== src/Availability/Windows/Closing.antt =====
-- packages/core/src/availability.ts: what the blackouts leave of a day, minute by minute.
use booking_lumin_checkout.Base.{
  ℕ, ◌+◌, ◌<◌, ◌≡◌, refl, ◌∙◌, Bool, true, ◌&&◌, none, some, List, [], ◌∷◌, ◌++◌, arith, inl, inr,
  ltb, leb, keep, any, Option-cases, if◌then◌else◌,
}
use booking_lumin_checkout.Contracts.Availability.{AvailabilityBlackout, AvailabilityQuery}
use booking_lumin_checkout.Availability.Dates.{CivilDate, iso_date, weekday_of_date}
use booking_lumin_checkout.Availability.Windows.{
  Window, blackout_covers, clip, subtract_interval, minutes_of, apply_covering, apply_blackouts,
  base_windows_for_date, windows_for_date,
}

abbrev pub covers : ℕ → Window → Bool
covers t w = leb w.start_minute t && ltb t w.end_minute

-- The capacity that the windows of a day offer at a minute.
pub capacity_at : ℕ → List Window → ℕ
capacity_at t [] = 0
capacity_at t (w ∷ ws) = (if covers t w then w.capacity else 0) + capacity_at t ws

capacity_at-append :
    (t : ℕ) (xs ys : List Window) → capacity_at t (xs ++ ys) ≡ capacity_at t xs + capacity_at t ys
unfolding capacity_at
capacity_at-append t [] ys = omega arith
capacity_at-append t (x ∷ xs) ys = omega (arith, capacity_at-append t xs ys)

abbrev between : ℕ → ℕ → ℕ → Bool
between s t e = leb s t && ltb t e

capacity_at-clip :
    (t : ℕ) (w : Window) (bs be : ℕ)
    → bs < be
    → capacity_at t (clip w bs be) ≡ (if between bs t be then 0 else capacity_at t (w ∷ []))
unfolding capacity_at clip
capacity_at-clip t w bs be h = ground arith

-- Cutting the minutes from `bs` to `be` out leaves no capacity there and all of it elsewhere.
pub capacity_at-subtract_interval :
    (t : ℕ) (ws : List Window) (bs be : ℕ)
    → bs < be
    → capacity_at t (subtract_interval ws bs be) ≡ (if between bs t be then 0 else capacity_at t ws)
unfolding capacity_at subtract_interval
capacity_at-subtract_interval t [] bs be h = ground arith
capacity_at-subtract_interval t (w ∷ ws) bs be h = ground (
  arith,
  capacity_at-append t (clip w bs be) (subtract_interval ws bs be),
  capacity_at-clip t w bs be h,
  capacity_at-subtract_interval t ws bs be h,
)

-- A blackout with no minutes of its own, or with minutes that are out of order, closes the day.
abbrev pub closes : ℕ → AvailabilityBlackout → Bool
closes t b = elim (minutes_of b) [ none ↦ true | some (s, e) ↦ between s t e ]

minutes_of-ordered : (b : AvailabilityBlackout) {m : ℕ × ℕ} → minutes_of b ≡ some m → m.0 < m.1
unfolding minutes_of
minutes_of-ordered b h = ground arith

capacity_at-nil : (t : ℕ) → capacity_at t [] ≡ 0
unfolding capacity_at
capacity_at-nil t = refl

capacity_at-apply_covering :
    (t : ℕ) (bs : List AvailabilityBlackout) (ws : List Window)
    → capacity_at t (apply_covering bs ws) ≡ (if any (closes t) bs then 0 else capacity_at t ws)
unfolding apply_covering
capacity_at-apply_covering t [] ws = refl
capacity_at-apply_covering t (b ∷ bs) ws = elim (Option-cases (minutes_of b)) [
  | inl e ↦ ground (arith, capacity_at-nil t)
  | inr ((s, e), m) ↦ ground (
    arith,
    minutes_of-ordered b m,
    capacity_at-apply_covering t bs (subtract_interval ws s e),
    capacity_at-subtract_interval t ws s e,
  )
]

any-keep {ℓ} :
    {A : Type ℓ} (p q : A → Bool) (xs : List A) → any q (keep p xs) ≡ any (λ x. p x && q x) xs
any-keep p q [] = refl
any-keep p q (x ∷ xs) = ground (arith, any-keep p q xs)

-- Blackouts have the last word: on a date the capacity at a minute is none where some blackout
-- that covers the date closes the minute, and elsewhere what the overrides or rules offer.
pub capacity_at-windows_for_date :
    (query : AvailabilityQuery) (c : CivilDate) (t : ℕ)
    → let date = iso_date c.y c.m c.d in
      capacity_at t (windows_for_date query c) ≡ (
        if any (λ b. blackout_covers query b date && closes t b) query.blackouts
        then 0
        else capacity_at t (base_windows_for_date query (weekday_of_date c.y c.m c.d) date))
unfolding windows_for_date apply_blackouts
capacity_at-windows_for_date query c t =
    capacity_at-apply_covering t _ _
    ∙ rw (any-keep (λ b. blackout_covers query b (iso_date c.y c.m c.d)) (closes t) query.blackouts)
        refl

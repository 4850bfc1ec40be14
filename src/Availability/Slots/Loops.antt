-- ===== src/Availability/Slots/Loops.antt =====
-- packages/core/src/availability.ts: the loops of `computeSlots` end by their tests, and visit what
-- they should.
use booking_lumin_checkout.Base.{
  ℕ, zero, suc, ◌+◌, ◌*◌, ◌≤◌, ◌<◌, ◌≡◌, subst, ◌↔◌, inl, inr, true, List, ◌∷◌, arith, leb,
  Bool-cases,
}
use mathlib.Core.List.{Memᴰ}
use booking_lumin_checkout.Availability.Windows.{Window}
use booking_lumin_checkout.Availability.Slots.{grid, minutes_of_window}

-- A minute on the grid of a window, at which a booking fits.
abbrev pub OnGrid : ℕ → ℕ → ℕ → ℕ → ℕ → Type 0
OnGrid interval duration end start m = (k : ℕ) × (m ≡ start + k * interval) × (m + duration ≤ end)

OnGrid-next :
    (interval duration end start m : ℕ)
    → OnGrid interval duration end (start + interval) m
    → OnGrid interval duration end start m
OnGrid-next interval duration end start m (k, at, fits) = (suc k, grind arith, fits)

grid-cons :
    (interval duration end start m : ℕ) {rest : List ℕ}
    → start + duration ≤ end
    → (Memᴰ m rest → OnGrid interval duration end (start + interval) m)
    → Memᴰ m (start ∷ rest)
    → OnGrid interval duration end start m
grid-cons interval duration end start m e ih (Memᴰ.head q) = (0, omega arith, omega arith)
grid-cons interval duration end start m e ih (Memᴰ.tail r) =
    OnGrid-next interval duration end start m (ih r)

grid_sound :
    (f interval duration end start m : ℕ)
    → Memᴰ m (grid f interval duration end start)
    → OnGrid interval duration end start m
unfolding grid
grid_sound zero interval duration end start m h = elim h [ ]
grid_sound (suc f) interval duration end start m h =
    elim (Bool-cases (leb (start + duration) end)) [
      | inl e ↦
          grid-cons interval duration end start m (ground arith)
            (grid_sound f interval duration end (start + interval) m) (rw (e, grid) at h)
      | inr e ↦ absurd (elim (rw (e, grid) at h) [ ])
    ]

-- With fuel above the end of the window no minute of the grid is missed.
grid_complete :
    (f interval duration end start k : ℕ)
    → 1 ≤ interval
    → end < start + f
    → start + k * interval + duration ≤ end
    → Memᴰ (start + k * interval) (grid f interval duration end start)
unfolding grid
grid_complete zero interval duration end start k i enough fits = absurd (grind arith)
grid_complete (suc f) interval duration end start zero i enough fits =
    rw (first_fits) (Memᴰ.head (omega arith))
  where
    first_fits : leb (start + duration) end ≡ true
    first_fits = ground arith
grid_complete (suc f) interval duration end start (suc k) i enough fits = rw (first_fits) (
    Memᴰ.tail (
      subst (λ n. Memᴰ n (grid f interval duration end (start + interval))) regroup
        (grid_complete f interval duration end (start + interval) k i (omega arith) (grind arith))))
  where
    first_fits : leb (start + duration) end ≡ true
    first_fits = let h : start + duration ≤ end = grind arith in ground arith

    regroup : start + interval + k * interval ≡ start + suc k * interval
    regroup = grind arith

-- The minutes of a window are those of its grid, one interval apart, at which the duration ends
-- inside the window; the loop needs an interval of one minute at least.
pub minutes_of_window_iff :
    (interval duration : ℕ) (w : Window) (m : ℕ)
    → 1 ≤ interval
    → Memᴰ m (minutes_of_window interval duration w)
      ↔ OnGrid interval duration w.end_minute w.start_minute m
unfolding minutes_of_window
minutes_of_window_iff interval duration w m i = (
  grid_sound (suc w.end_minute) interval duration w.end_minute w.start_minute m,
  λ (k, at, fits). rw at (
      grid_complete (suc w.end_minute) interval duration w.end_minute w.start_minute k i
        (omega arith) (omega arith)),
)

-- ===== src/Calendar/Separation.antt =====
-- packages/integrations/src/calendar.ts: the form of what `mergeBusy` answers.
use booking_lumin_checkout.Base.{
  String, true, ◌≡◌, Option, List, [], ◌∷◌, All, All-imp, inl, inr, Bool-cases,
}
use booking_lumin_checkout.Base.Int.{ℤ}
use booking_lumin_checkout.Calendar.{
  BusyWindow, is_before, is_by, extend, absorb, merge_sorted, merge_busy,
}
use booking_lumin_checkout.Calendar.Order.{before_by_trans, IsReal, StartsBy, IsSorted}
use booking_lumin_checkout.Calendar.Merge.{
  after_end, extend-IsReal, extend-start, extend-StartsBy, absorb_in, absorb_out, ready-IsReal,
  ready-IsSorted,
}

module _ (to_ms : String → Option ℤ) where
  abbrev pub EndsBefore : BusyWindow → BusyWindow → Type 0
  EndsBefore w x = is_before (to_ms w.end) (to_ms x.start) ≡ true

  -- Windows that can be read and start before they end, each of them ending before all later ones
  -- start.
  abbrev pub IsSeparated : List BusyWindow → Type 0
  IsSeparated [] = Unit
  IsSeparated (w ∷ ws) = IsReal to_ms w × (All (EndsBefore w) ws × IsSeparated ws)

  -- The starts are starts that the loop was given.
  absorb-starts {κ} :
      (P : String → Type κ) (last : BusyWindow) (ws : List BusyWindow)
      → P last.start
      → All (λ w. P w.start) ws
      → All (λ w. P w.start) (absorb to_ms last ws)
  absorb-starts P last [] p h = unfold absorb in (p, tt)
  absorb-starts P last (w ∷ ws) p (q, h) =
      elim (Bool-cases (is_by (to_ms w.start) (to_ms last.end))) [
        | inl e ↦
            rw (absorb_in to_ms last w ws e)
              (absorb-starts P (extend to_ms last w) ws (rw (extend-start to_ms last w) p) h)
        | inr e ↦ rw (absorb_out to_ms last w ws e) (p, absorb-starts P w ws q h)
      ]

  absorb-IsSeparated :
      (last : BusyWindow) (ws : List BusyWindow)
      → IsReal to_ms last
      → All (IsReal to_ms) ws
      → IsSorted to_ms (last ∷ ws)
      → IsSeparated (absorb to_ms last ws)
  absorb-IsSeparated last [] hl h s = unfold absorb in (hl, (tt, tt))
  absorb-IsSeparated last (w ∷ ws) hl (hw, h) ((b, bs), (cs, s)) =
      elim (Bool-cases (is_by (to_ms w.start) (to_ms last.end))) [
        | inl e ↦ rw (absorb_in to_ms last w ws e) (
            absorb-IsSeparated (extend to_ms last w) ws (extend-IsReal to_ms last w hl hw b e) h
              (extend-StartsBy to_ms last w ws bs, s))
        | inr e ↦
            let gap : EndsBefore last w =
              after_end (to_ms last.start) (to_ms last.end) (to_ms w.start) (to_ms w.end) hl hw e in
            let later =
              All-imp (StartsBy to_ms w) (EndsBefore last) ws
                (λ x k. before_by_trans (to_ms last.end) (to_ms w.start) (to_ms x.start) gap k)
                cs in
            rw (absorb_out to_ms last w ws e) (
              hl,
              (
                absorb-starts (λ x. is_before (to_ms last.end) (to_ms x) ≡ true) w ws gap later,
                absorb-IsSeparated w ws hw h (cs, s),
              ),
            )
      ]

  merge_sorted-IsSeparated :
      (ws : List BusyWindow)
      → All (IsReal to_ms) ws
      → IsSorted to_ms ws
      → IsSeparated (merge_sorted to_ms ws)
  unfolding merge_sorted
  merge_sorted-IsSeparated [] h s = tt
  merge_sorted-IsSeparated (w ∷ ws) (hw, h) s = absorb-IsSeparated w ws hw h s

  -- Whatever windows `mergeBusy` is given, in any order, overlapping, reversed or with dates that
  -- cannot be read: those it answers can be read and start before they end, and each ends strictly
  -- before every later one starts.
  pub merge_busy-IsSeparated :
      (holds busy : List BusyWindow) → IsSeparated (merge_busy to_ms holds busy)
  unfolding merge_busy
  merge_busy-IsSeparated holds busy =
      merge_sorted-IsSeparated _ (ready-IsReal to_ms _) (ready-IsSorted to_ms _)

-- ===== src/Availability/Slots/Starts.antt =====
-- packages/core/src/availability.ts: what the loops of `computeSlots` that collect the starts keep.
use booking_lumin_checkout.Base.{
  ℕ, ◌≡◌, subst, inl, inr, ◌||◌, List, [], ◌∷◌, arith, ltb, Bool-cases, if◌then◌else◌,
}
use booking_lumin_checkout.Base.Int.{ℤ, ltb_ℤ, ◌≤ℤ◌}
use booking_lumin_checkout.Base.Result.{Result, ok, >>=-elim, ok-injective}
use booking_lumin_checkout.Contracts.Availability.{AvailabilityQuery}
use booking_lumin_checkout.Availability.Dates.{
  Fault, Platform, CivilDate, utc_date, local_minute_to_utc_ms,
}
use booking_lumin_checkout.Availability.Windows.{Window, windows_for_date}
use booking_lumin_checkout.Availability.Slots.{
  Capacities, add_capacity, minutes_of_window, window_starts, day_starts, all_starts,
}

-- What adding a start in the range keeps, the loops keep.
module _ (platform : Platform) (query : AvailabilityQuery) (from to : ℤ) (P : Capacities → Type 0)
    (add : (m : Capacities) (t : ℤ) (c : ℕ)
      → from ≤ℤ t
      → t ≤ℤ to
      → P m
      → P (add_capacity m t c)) where
  window_starts-keep :
      (date : CivilDate) (capacity : ℕ) (minutes : List ℕ) (acc : Capacities) {r : Capacities}
      → P acc
      → window_starts platform query from to date capacity minutes acc ≡ ok r
      → P r
  unfolding window_starts
  window_starts-keep date capacity [] acc inv h = subst P (ok-injective h) inv
  window_starts-keep date capacity (minute ∷ minutes) acc inv h =
      >>=-elim (local_minute_to_utc_ms platform query.tenant_timezone date minute) _ h λ start _ h1.
        window_starts-keep date capacity minutes _
          (elim (Bool-cases (ltb_ℤ start from || ltb_ℤ to start)) [
            | inl e ↦ rw e inv
            | inr e ↦ rw e (add acc start capacity (ground arith) (ground arith) inv)
          ])
          h1

  day_starts-keep :
      (date : CivilDate) (ws : List Window) (acc : Capacities) {r : Capacities}
      → P acc
      → day_starts platform query from to date ws acc ≡ ok r
      → P r
  unfolding day_starts
  day_starts-keep date [] acc inv h = subst P (ok-injective h) inv
  day_starts-keep date (w ∷ ws) acc inv h = >>=-elim (one w) _ h λ next done h1.
      day_starts-keep date ws next
        (elim (Bool-cases (ltb w.capacity 1)) [
          | inl e ↦ subst P (ok-injective (rw e at done)) inv
          | inr e ↦ window_starts-keep date w.capacity _ acc inv (rw e at done)
        ])
        h1
    where
      one : Window → Result Fault Capacities
      one w =
          if ltb w.capacity 1
          then ok acc
          else window_starts platform query from to date w.capacity
              (minutes_of_window query.policy.slot_interval_minutes query.duration_minutes w) acc

  pub all_starts-keep :
      (days : List ℤ) (acc : Capacities) {r : Capacities}
      → P acc
      → all_starts platform query from to days acc ≡ ok r
      → P r
  unfolding all_starts
  all_starts-keep [] acc inv h = subst P (ok-injective h) inv
  all_starts-keep (day ∷ days) acc inv h =
      >>=-elim
        (day_starts platform query from to (utc_date day) (windows_for_date query (utc_date day))
          acc)
        _ h
        λ next done h1.
          all_starts-keep days next
            (day_starts-keep (utc_date day) (windows_for_date query (utc_date day)) acc inv done) h1

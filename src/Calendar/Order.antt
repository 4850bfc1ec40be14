-- ===== src/Calendar/Order.antt =====
-- packages/integrations/src/calendar.ts: the windows that `mergeBusy` merges, in the order of their
-- starts.
use booking_lumin_checkout.Base.{
  String, Bool, true, false, ◌&&◌, ◌||◌, ◌≡◌, Option, none, some, List, [], ◌∷◌, ◌++◌, All, All-imp,
  inl, inr, arith, Bool-cases, refl, keep,
}
use booking_lumin_checkout.Base.Int.{ℤ, leb_ℤ, ltb_ℤ}
use booking_lumin_checkout.Calendar.{
  BusyWindow, is_before, is_by, is_real, insert_window, sort_windows,
}

-- Whether an instant lies in a span that starts before it ends, from its start on and before its end.
abbrev pub in_span : Option ℤ → Option ℤ → ℤ → Bool
in_span (some a) (some b) t = leb_ℤ a t && ltb_ℤ t b
in_span _ _ t = false

before-by : (a b : Option ℤ) → is_before a b ≡ true → is_by a b ≡ true
before-by (some a) (some b) h = ground arith
before-by none b h = absurd (cc)
before-by (some a) none h = absurd (cc)

pub by_trans : (a b c : Option ℤ) → is_by a b ≡ true → is_by b c ≡ true → is_by a c ≡ true
by_trans (some a) (some b) (some c) h k = ground arith
by_trans none b c h k = absurd (cc)
by_trans (some a) none c h k = absurd (cc)
by_trans (some a) (some b) none h k = absurd (cc)

pub before_by_trans :
    (a b c : Option ℤ) → is_before a b ≡ true → is_by b c ≡ true → is_before a c ≡ true
before_by_trans (some a) (some b) (some c) h k = ground arith
before_by_trans none b c h k = absurd (cc)
before_by_trans (some a) none c h k = absurd (cc)
before_by_trans (some a) (some b) none h k = absurd (cc)

-- Where two spans can be read, one start is before the other or is not after it.
not_before :
    (a b c d : Option ℤ)
    → is_before a b ≡ true
    → is_before c d ≡ true
    → is_before a c ≡ false
    → is_by c a ≡ true
not_before (some a) (some b) (some c) (some d) h k n = ground arith
not_before none b c d h k n = absurd (cc)
not_before (some a) none c d h k n = absurd (cc)
not_before (some a) (some b) none d h k n = absurd (cc)
not_before (some a) (some b) (some c) none h k n = absurd (cc)

module _ (to_ms : String → Option ℤ) where
  abbrev pub IsReal : BusyWindow → Type 0
  IsReal w = is_real to_ms w ≡ true

  abbrev pub StartsBy : BusyWindow → BusyWindow → Type 0
  StartsBy w x = is_by (to_ms w.start) (to_ms x.start) ≡ true

  abbrev pub IsSorted : List BusyWindow → Type 0
  IsSorted [] = Unit
  IsSorted (w ∷ ws) = All (StartsBy w) ws × IsSorted ws

  -- The instants of a window, where it passes a test of its own, and those of a list of windows.
  abbrev pub spans : (BusyWindow → Bool) → BusyWindow → ℤ → Bool
  spans p w t = p w && in_span (to_ms w.start) (to_ms w.end) t

  unfoldable pub covers : (BusyWindow → Bool) → List BusyWindow → ℤ → Bool
  covers p [] t = false
  covers p (w ∷ ws) t = spans p w t || covers p ws t

  pub covers-append :
      (p : BusyWindow → Bool) (ws xs : List BusyWindow) (t : ℤ)
      → covers p (ws ++ xs) t ≡ (covers p ws t || covers p xs t)
  unfolding covers
  covers-append p [] xs t = refl
  covers-append p (w ∷ ws) xs t = ground (arith, covers-append p ws xs t)

  insert_window-All {κ} :
      (P : BusyWindow → Type κ) (w : BusyWindow) (ws : List BusyWindow)
      → P w
      → All P ws
      → All P (insert_window to_ms w ws)
  unfolding insert_window
  insert_window-All P w [] h hs = (h, tt)
  insert_window-All P w (x ∷ xs) h (hx, hs) =
      elim (Bool-cases (is_before (to_ms x.start) (to_ms w.start))) [
        | inl e ↦ rw e (hx, insert_window-All P w xs h hs)
        | inr e ↦ rw e (h, (hx, hs))
      ]

  pub sort_windows-All {κ} :
      (P : BusyWindow → Type κ) (ws : List BusyWindow) → All P ws → All P (sort_windows to_ms ws)
  unfolding sort_windows
  sort_windows-All P [] h = tt
  sort_windows-All P (w ∷ ws) (p, h) = insert_window-All P w _ p (sort_windows-All P ws h)

  insert_window-IsSorted :
      (w : BusyWindow) (ws : List BusyWindow)
      → IsReal w
      → All IsReal ws
      → IsSorted ws
      → IsSorted (insert_window to_ms w ws)
  unfolding insert_window
  insert_window-IsSorted w [] h hs s = (tt, tt)
  insert_window-IsSorted w (x ∷ xs) h (hx, hs) (b, s) =
      elim (Bool-cases (is_before (to_ms x.start) (to_ms w.start))) [
        | inl e ↦ rw e (
          insert_window-All (StartsBy x) w xs (before-by (to_ms x.start) (to_ms w.start) e) b,
          insert_window-IsSorted w xs h hs s,
        )
        | inr e ↦
            let first : StartsBy w x =
              not_before (to_ms x.start) (to_ms x.end) (to_ms w.start) (to_ms w.end) hx h e in
            let rest =
              All-imp (StartsBy x) (StartsBy w) xs
                (λ y k. by_trans (to_ms w.start) (to_ms x.start) (to_ms y.start) first k) b in
            rw e ((first, rest), (b, s))
      ]

  pub sort_windows-IsSorted :
      (ws : List BusyWindow) → All IsReal ws → IsSorted (sort_windows to_ms ws)
  unfolding sort_windows
  sort_windows-IsSorted [] h = tt
  sort_windows-IsSorted (w ∷ ws) (p, h) =
      insert_window-IsSorted w _ p (sort_windows-All IsReal ws h) (sort_windows-IsSorted ws h)

  insert_window-covers :
      (p : BusyWindow → Bool) (w : BusyWindow) (ws : List BusyWindow) (t : ℤ)
      → covers p (insert_window to_ms w ws) t ≡ (spans p w t || covers p ws t)
  unfolding insert_window covers
  insert_window-covers p w [] t = refl
  insert_window-covers p w (x ∷ xs) t =
      elim (Bool-cases (is_before (to_ms x.start) (to_ms w.start))) [
        | inl e ↦ rw (e, insert_window-covers p w xs t) (ground arith)
        | inr e ↦ rw e
      ]

  pub sort_windows-covers :
      (p : BusyWindow → Bool) (ws : List BusyWindow) (t : ℤ)
      → covers p (sort_windows to_ms ws) t ≡ covers p ws t
  unfolding sort_windows covers
  sort_windows-covers p [] t = refl
  sort_windows-covers p (w ∷ ws) t =
      rw (insert_window-covers p w (sort_windows to_ms ws) t, sort_windows-covers p ws t) refl

  -- A window that ends before it starts, or cannot be read, has no instant.
  unreal_spans :
      (a b : Option ℤ) (c : Bool) (t : ℤ) → is_before a b ≡ false → (c && in_span a b t) ≡ false
  unreal_spans (some a) (some b) c t h = ground arith
  unreal_spans none b c t h = ground arith
  unreal_spans (some a) none c t h = ground arith

  pub keep-covers :
      (p : BusyWindow → Bool) (ws : List BusyWindow) (t : ℤ)
      → covers p (keep (is_real to_ms) ws) t ≡ covers p ws t
  unfolding covers
  keep-covers p [] t = refl
  keep-covers p (w ∷ ws) t = elim (Bool-cases (is_real to_ms w)) [
    | inl e ↦ rw (e, keep-covers p ws t) refl
    | inr e ↦ rw (e, unreal_spans (to_ms w.start) (to_ms w.end) (p w) t e) (keep-covers p ws t)
  ]

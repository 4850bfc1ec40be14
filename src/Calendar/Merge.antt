-- ===== src/Calendar/Merge.antt =====
-- packages/integrations/src/calendar.ts: what `mergeBusy` answers, as a set of instants.
use booking_lumin_checkout.Base.{
  String, Bool, true, false, ◌||◌, ◌≡◌, Option, none, some, List, [], ◌∷◌, ◌++◌, map, All, keep-All,
  inl, inr, arith, Bool-cases, refl, keep, ap, ap₂, ◌∙◌, if◌then◌else◌,
}
use booking_lumin_checkout.Base.Int.{ℤ, pos, ltb_ℤ}
use booking_lumin_checkout.Calendar.{
  BusyWindow, BusySource, is_internal, tagged, is_before, is_by, is_real, sort_windows, extend,
  absorb, merge_sorted, merge_busy,
}
use booking_lumin_checkout.Calendar.Order.{
  in_span, IsReal, StartsBy, IsSorted, spans, covers, covers-append, sort_windows-All,
  sort_windows-IsSorted, sort_windows-covers, keep-covers,
}

abbrev pub anyone : BusyWindow → Bool
anyone w = true

abbrev pub is_hold : BusyWindow → Bool
is_hold w = is_internal w.source

-- Two spans, the second starting in the first or at its end: the instants of the longer span.
joined :
    (a b c d e : Option ℤ) (t : ℤ)
    → is_before a b ≡ true
    → is_before c d ≡ true
    → is_by a c ≡ true
    → is_by c b ≡ true
    → e ≡ (if is_before b d then d else b)
    → (in_span a e t ≡ (in_span a b t || in_span c d t)) × (is_before a e ≡ true)
joined (some a) (some b) (some c) (some d) e t ab cd ac cb f = rw f (elim (Bool-cases (ltb_ℤ b d)) [
  | inl h ↦ rw h (ground arith, ground arith)
  | inr h ↦ rw h (ground arith, ground arith)
])
joined none b c d e t ab cd ac cb f = absurd (cc)
joined (some a) none c d e t ab cd ac cb f = absurd (cc)
joined (some a) (some b) none d e t ab cd ac cb f = absurd (cc)
joined (some a) (some b) (some c) none e t ab cd ac cb f = absurd (cc)

-- What does not start by the end of a span starts after it.
pub after_end :
    (a b c d : Option ℤ)
    → is_before a b ≡ true
    → is_before c d ≡ true
    → is_by c b ≡ false
    → is_before b c ≡ true
after_end (some a) (some b) (some c) (some d) h k n = ground arith
after_end none b c d h k n = absurd (cc)
after_end (some a) none c d h k n = absurd (cc)
after_end (some a) (some b) none d h k n = absurd (cc)
after_end (some a) (some b) (some c) none h k n = absurd (cc)

tag-is_internal :
    (a b : BusySource)
    → is_internal (if is_internal a || is_internal b then BusySource.internal else b)
      ≡ (is_internal a || is_internal b)
tag-is_internal BusySource.internal b = refl
tag-is_internal BusySource.external BusySource.internal = refl
tag-is_internal BusySource.external BusySource.external = refl

or_right : (a b : Bool) → (a ≡ true → b ≡ true) → b ≡ (a || b)
or_right true b h = h refl
or_right false b h = refl

module _ (to_ms : String → Option ℤ) where
  extend-end :
      (last w : BusyWindow)
      → to_ms (extend to_ms last w).end
        ≡ (if is_before (to_ms last.end) (to_ms w.end) then to_ms w.end else to_ms last.end)
  unfolding extend
  extend-end last w = elim (Bool-cases (is_before (to_ms last.end) (to_ms w.end))) [
    | inl e ↦ rw e
    | inr e ↦ rw e
  ]

  extend-is_hold :
      (last w : BusyWindow) → is_hold (extend to_ms last w) ≡ (is_hold w || is_hold last)
  unfolding extend
  extend-is_hold last w = tag-is_internal w.source last.source

  pub extend-start : (last w : BusyWindow) → (extend to_ms last w).start ≡ last.start
  unfolding extend
  extend-start last w = refl

  -- The longer window where two meet.
  module _ (last w : BusyWindow) (hl : IsReal to_ms last) (hw : IsReal to_ms w)
      (b : StartsBy to_ms last w) (c : is_by (to_ms w.start) (to_ms last.end) ≡ true) where
    extend_joined :
        (t : ℤ)
        → (in_span (to_ms last.start) (to_ms (extend to_ms last w).end) t ≡ (
            in_span (to_ms last.start) (to_ms last.end) t
            || in_span (to_ms w.start) (to_ms w.end) t))
          × (is_before (to_ms last.start) (to_ms (extend to_ms last w).end) ≡ true)
    extend_joined t =
        joined (to_ms last.start) (to_ms last.end) (to_ms w.start) (to_ms w.end)
          (to_ms (extend to_ms last w).end) t hl hw b c (extend-end last w)

    pub extend-IsReal : IsReal to_ms (extend to_ms last w)
    extend-IsReal = rw (extend-start last w) (extend_joined (pos 0)).1

    extend-spans :
        (t : ℤ)
        → spans to_ms anyone (extend to_ms last w) t
          ≡ (spans to_ms anyone last t || spans to_ms anyone w t)
    extend-spans t = rw (extend-start last w) (extend_joined t).0

    extend-held :
        (t : ℤ)
        → (spans to_ms is_hold last t || spans to_ms is_hold w t) ≡ true
        → spans to_ms is_hold (extend to_ms last w) t ≡ true
    extend-held t k =
        rw (extend-start last w, (extend_joined t).0, extend-is_hold last w) (ground arith)

  pub extend-StartsBy :
      (last w : BusyWindow) (ws : List BusyWindow)
      → All (StartsBy to_ms last) ws
      → All (StartsBy to_ms (extend to_ms last w)) ws
  unfolding extend
  extend-StartsBy last w ws h = h

  pub absorb_in :
      (last w : BusyWindow) (ws : List BusyWindow)
      → is_by (to_ms w.start) (to_ms last.end) ≡ true
      → absorb to_ms last (w ∷ ws) ≡ absorb to_ms (extend to_ms last w) ws
  unfolding absorb
  absorb_in last w ws e = rw (e, absorb)

  pub absorb_out :
      (last w : BusyWindow) (ws : List BusyWindow)
      → is_by (to_ms w.start) (to_ms last.end) ≡ false
      → absorb to_ms last (w ∷ ws) ≡ last ∷ absorb to_ms w ws
  unfolding absorb
  absorb_out last w ws e = rw (e, absorb)

  -- The loop adds and loses no instant.
  absorb-covers :
      (last : BusyWindow) (ws : List BusyWindow) (t : ℤ)
      → IsReal to_ms last
      → All (IsReal to_ms) ws
      → IsSorted to_ms (last ∷ ws)
      → covers to_ms anyone (absorb to_ms last ws) t ≡ covers to_ms anyone (last ∷ ws) t
  unfolding covers
  absorb-covers last [] t hl h s = unfold absorb in refl
  absorb-covers last (w ∷ ws) t hl (hw, h) ((b, bs), (cs, s)) =
      elim (Bool-cases (is_by (to_ms w.start) (to_ms last.end))) [
        | inl e ↦
            let rest =
              absorb-covers (extend to_ms last w) ws t (extend-IsReal last w hl hw b e) h
                (extend-StartsBy last w ws bs, s) in
            let same = extend-spans last w hl hw b e t in
            rw (absorb_in last w ws e) (ground (arith, rest, same))
        | inr e ↦ rw (absorb_out last w ws e) (ground (arith, absorb-covers w ws t hw h (cs, s)))
      ]

  -- The loop keeps what internal windows cover under windows that are tagged internal.
  absorb-held :
      (last : BusyWindow) (ws : List BusyWindow) (t : ℤ)
      → IsReal to_ms last
      → All (IsReal to_ms) ws
      → IsSorted to_ms (last ∷ ws)
      → covers to_ms is_hold (last ∷ ws) t ≡ true
      → covers to_ms is_hold (absorb to_ms last ws) t ≡ true
  unfolding covers
  absorb-held last [] t hl h s k = unfold absorb in k
  absorb-held last (w ∷ ws) t hl (hw, h) ((b, bs), (cs, s)) k =
      elim (Bool-cases (is_by (to_ms w.start) (to_ms last.end))) [
        | inl e ↦
            let rest =
              absorb-held (extend to_ms last w) ws t (extend-IsReal last w hl hw b e) h
                (extend-StartsBy last w ws bs, s) in
            let longer = extend-held last w hl hw b e t in
            rw (absorb_in last w ws e) (rest (ground (arith, longer)))
        | inr e ↦
            let rest = absorb-held w ws t hw h (cs, s) in
            rw (absorb_out last w ws e) (ground (arith, rest))
      ]

  merge_sorted-covers :
      (ws : List BusyWindow) (t : ℤ)
      → All (IsReal to_ms) ws
      → IsSorted to_ms ws
      → covers to_ms anyone (merge_sorted to_ms ws) t ≡ covers to_ms anyone ws t
  unfolding merge_sorted
  merge_sorted-covers [] t h s = refl
  merge_sorted-covers (w ∷ ws) t (hw, h) s = absorb-covers w ws t hw h s

  merge_sorted-held :
      (ws : List BusyWindow) (t : ℤ)
      → All (IsReal to_ms) ws
      → IsSorted to_ms ws
      → covers to_ms is_hold ws t ≡ true
      → covers to_ms is_hold (merge_sorted to_ms ws) t ≡ true
  unfolding merge_sorted
  merge_sorted-held [] t h s k = k
  merge_sorted-held (w ∷ ws) t (hw, h) s k = absorb-held w ws t hw h s k

  -- The windows that `mergeBusy` merges: those that can be read, sorted.
  abbrev pub ready : List BusyWindow → List BusyWindow
  ready ws = sort_windows to_ms (keep (is_real to_ms) ws)

  pub ready-IsReal : (ws : List BusyWindow) → All (IsReal to_ms) (ready ws)
  ready-IsReal ws = sort_windows-All to_ms (IsReal to_ms) _ (keep-All (is_real to_ms) ws)

  pub ready-IsSorted : (ws : List BusyWindow) → IsSorted to_ms (ready ws)
  ready-IsSorted ws = sort_windows-IsSorted to_ms _ (keep-All (is_real to_ms) ws)

  ready-covers :
      (p : BusyWindow → Bool) (ws : List BusyWindow) (t : ℤ)
      → covers to_ms p (ready ws) t ≡ covers to_ms p ws t
  ready-covers p ws t =
      sort_windows-covers to_ms p (keep (is_real to_ms) ws) t ∙ keep-covers to_ms p ws t

  tagged-covers :
      (source : BusySource) (ws : List BusyWindow) (t : ℤ)
      → covers to_ms anyone (map (tagged source) ws) t ≡ covers to_ms anyone ws t
  unfolding covers
  tagged-covers source [] t = refl
  tagged-covers source (w ∷ ws) t = rw (tagged-covers source ws t) refl

  tagged-held :
      (ws : List BusyWindow) (t : ℤ)
      → covers to_ms is_hold (map (tagged BusySource.internal) ws) t ≡ covers to_ms anyone ws t
  unfolding covers
  tagged-held [] t = refl
  tagged-held (w ∷ ws) t = rw (tagged-held ws t) refl

  -- As sets of instants, what `mergeBusy` answers is the union of what it is given: an instant is
  -- covered by one of its windows exactly when an internal hold or an external window covers it (one
  -- that cannot be read, or does not start before it ends, covers none). What an internal hold
  -- covers is covered by a window that is tagged internal, whatever the external calendar says.
  pub merge_busy-covers :
      (holds busy : List BusyWindow) (t : ℤ)
      → (covers to_ms anyone (merge_busy to_ms holds busy) t
          ≡ (covers to_ms anyone holds t || covers to_ms anyone busy t))
        × (covers to_ms is_hold (merge_busy to_ms holds busy) t
            ≡ (covers to_ms anyone holds t || covers to_ms is_hold (merge_busy to_ms holds busy) t))
  unfolding merge_busy
  merge_busy-covers holds busy t =
      let ours = map (tagged BusySource.internal) holds in
      let theirs = map (tagged BusySource.external) busy in
      let all = ours ++ theirs in
      (
        merge_sorted-covers (ready all) t (ready-IsReal all) (ready-IsSorted all)
            ∙ ready-covers anyone all t
            ∙ covers-append to_ms anyone ours theirs t
            ∙ ap₂ (λ x y. x || y) (tagged-covers BusySource.internal holds t)
                (tagged-covers BusySource.external busy t),
        or_right _ _ λ k. merge_sorted-held (ready all) t (ready-IsReal all) (ready-IsSorted all) (
            ready-covers is_hold all t
            ∙ covers-append to_ms is_hold ours theirs t
            ∙ ap (λ x. x || covers to_ms is_hold theirs t) (tagged-held holds t ∙ k)),
      )

-- ===== src/Availability/Slots/Closed.antt =====
-- packages/core/src/availability.ts: the queries that the engine cannot answer, for which it offers no
-- slot.
use booking_lumin_checkout.Base.{
  ◌≡◌, refl, sym, ◌∙◌, ◌⊎◌, ◌↔◌, inl, inr, String, true, false, not, none, some, List, [], ◌∷◌,
  arith, any, All, Bool-cases, Option-cases,
}
use mathlib.Core.List.{Memᴰ}
use mathlib.Core.Option.{some-injective}
use booking_lumin_checkout.Base.Int.{ℤ}
use booking_lumin_checkout.Base.Result.{Result, ok, err}
use booking_lumin_checkout.Contracts.Availability.{
  OverrideKind, AvailabilityOverride, CapacityHold, Slot, AvailabilityQuery,
}
use booking_lumin_checkout.Availability.Dates.{Fault, Platform}
use booking_lumin_checkout.Availability.Windows.{is_closed}
use booking_lumin_checkout.Availability.Slots.Holds.{read_holds_unread}
use booking_lumin_checkout.Availability.Slots.{
  Times, read_times, read_holds, unconfigured, slots_at, compute_slots, get_slots,
  is_slot_available, starts_at, slots_of, found_in,
}

module _ (platform : Platform) where
  open platform use {parse, zone_valid}

  -- What keeps the engine from answering, by its own readings.
  abbrev Unread : AvailabilityQuery → Type 0
  Unread query =
      (zone_valid query.tenant_timezone ≡ false)
      ⊎ (read_times platform query ≡ none)
      ⊎ (read_holds platform query.existing ≡ none)
      ⊎ (unconfigured platform query ≡ true)

  slots_at_closed :
      (query : AvailabilityQuery) (t : Times platform)
      → ((read_holds platform query.existing ≡ none) ⊎ (unconfigured platform query ≡ true))
      → slots_at platform query t ≡ ok []
  unfolding slots_at
  slots_at_closed query t h = ground arith

  get_slots_closed : (query : AvailabilityQuery) → Unread query → get_slots platform query ≡ []
  unfolding get_slots compute_slots
  get_slots_closed query h = elim (Option-cases (read_times platform query)) [
    | inl r ↦ ground arith
    | inr (t, r) ↦ ground (arith, slots_at_closed query t)
  ]

  found_in_lem :
      (target : ℤ) (r : Result Fault (List Slot))
      → found_in platform target r ≡ any (starts_at platform target) (slots_of platform r)
  found_in_lem target (ok slots) = refl
  found_in_lem target (err e) = refl

  -- A start is available exactly when it can be read and a slot is offered that starts then.
  pub is_slot_available_iff :
      (query : AvailabilityQuery) (start : String)
      → (is_slot_available platform query start ≡ true) ↔ (
          (target : ℤ) × (parse start ≡ some target)
          × (any (starts_at platform target) (get_slots platform query) ≡ true))
  unfolding is_slot_available get_slots
  is_slot_available_iff query start = elim (Option-cases (parse start)) [
    | inl e ↦ (λ h. absurd (ground arith), λ (target, found, _). absurd (cc))
    | inr (t, e) ↦ (
      λ h. (t, e, sym (found_in_lem t (compute_slots platform query)) ∙ ground arith),
      λ (target, found, some_slot).
          let same : target ≡ t = some-injective _ _ (sym found ∙ e) in
          ground (arith, found_in_lem t (compute_slots platform query)),
    )
  ]

  pub Unread-closed :
      (query : AvailabilityQuery)
      → Unread query
      → (get_slots platform query ≡ [])
        × ((start : String) → is_slot_available platform query start ≡ false)
  Unread-closed query h =
      let closed = get_slots_closed query h in
      (
        closed,
        λ start. elim (Bool-cases (is_slot_available platform query start)) [
          | inr e ↦ e
          | inl e ↦
              let (target, _, found) = (is_slot_available_iff query start).0 e in
              absurd (cc (rw closed at found))
        ],
      )

  -- Why a query cannot be answered: its time zone, one of its instants, or the start or the end of any
  -- one of its holds cannot be read, or it has no rules and all its overrides are closures.
  abbrev pub Unverifiable : AvailabilityQuery → Type 0
  Unverifiable query =
      (zone_valid query.tenant_timezone ≡ false)
      ⊎ (parse query.now ≡ none)
      ⊎ (parse query.from ≡ none)
      ⊎ (parse query.to ≡ none)
      ⊎ ((h : CapacityHold) × Memᴰ h query.existing
          × ((parse h.start ≡ none) ⊎ (parse h.end ≡ none)))
      ⊎ ((query.rules ≡ [])
          × All (λ (o : AvailabilityOverride). o.kind ≡ OverrideKind.closed) query.overrides)

  read_times_unread :
      (query : AvailabilityQuery)
      → (parse query.now ≡ none) ⊎ (parse query.from ≡ none) ⊎ (parse query.to ≡ none)
      → read_times platform query ≡ none
  unfolding read_times
  read_times_unread query h = ground arith

  no_open_override :
      (overrides : List AvailabilityOverride)
      → All (λ (o : AvailabilityOverride). o.kind ≡ OverrideKind.closed) overrides
      → any (λ (o : AvailabilityOverride). not (is_closed o.kind)) overrides ≡ false
  no_open_override [] h = refl
  no_open_override (o ∷ os) (e, h) = rw (e, no_open_override os h) refl

  -- The engine fails closed: a query whose time zone, instants or holds cannot be read, a single hold
  -- being enough, or which has neither rules nor open overrides, is offered no slot, and no start is
  -- available.
  pub Unverifiable-closed :
      (query : AvailabilityQuery)
      → Unverifiable query
      → (get_slots platform query ≡ [])
        × ((start : String) → is_slot_available platform query start ≡ false)
  Unverifiable-closed query (inl h) = Unread-closed query (inl h)
  Unverifiable-closed query (inr (inl h)) =
      Unread-closed query (inr (inl (read_times_unread query (inl h))))
  Unverifiable-closed query (inr (inr (inl h))) =
      Unread-closed query (inr (inl (read_times_unread query (inr (inl h)))))
  Unverifiable-closed query (inr (inr (inr (inl h)))) =
      Unread-closed query (inr (inl (read_times_unread query (inr (inr h)))))
  Unverifiable-closed query (inr (inr (inr (inr (inl (h, m, u)))))) =
      Unread-closed query (inr (inr (inl (read_holds_unread platform query.existing m u))))
  Unverifiable-closed query (inr (inr (inr (inr (inr (r, o)))))) =
      Unread-closed query (inr (inr (inr (rw (r, no_open_override query.overrides o) refl))))

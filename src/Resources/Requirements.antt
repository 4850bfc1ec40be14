-- ===== src/Resources/Requirements.antt =====
-- packages/resources/src/availability.ts: the verdict of `resolveServiceRequirements`.
use booking_lumin_checkout.Base.{
  ◌≤◌, String, Bool, true, false, not, ◌≡◌, ◌↔◌, refl, inl, inr, Option, none, some, List, [], ◌∷◌,
  keep, is_empty, All, arith, Bool-cases,
}
use booking_lumin_checkout.Base.Int.{ℤ}
use booking_lumin_checkout.Base.Dict.{Dict, get}
use booking_lumin_checkout.Resources.{
  Resource, ResourceReservation, ResourceSlot, ServiceResourceRequirement, RequirementResolution,
  can_reserve, resolve_with, resolve_all, resolve_service_requirements,
}

module _ (to_ms : String → Option ℤ) (resources : Dict Resource)
    (reservations : List ResourceReservation) (slot : ResourceSlot) (now : String) where
  -- The requirement names a resource that is known and can be reserved in that quantity.
  abbrev reservable : ServiceResourceRequirement → Option Resource → Bool
  reservable req none = false
  reservable req (some resource) =
      can_reserve to_ms resource reservations slot now req.quantity_required

  abbrev pub IsReservable : ServiceResourceRequirement → Type 0
  IsReservable req = reservable req (get resources req.resource_id) ≡ true

  satisfied-reservable :
      (req : ServiceResourceRequirement) (o : Option Resource)
      → 1 ≤ req.quantity_required
      → (resolve_with to_ms resources reservations slot now req o).satisfied ≡ reservable req o
  unfolding resolve_with can_reserve
  satisfied-reservable req none q = refl
  satisfied-reservable req (some resource) q = ground arith

  All-IsReservable :
      (reqs : List ServiceResourceRequirement)
      → All (λ (r : ServiceResourceRequirement). 1 ≤ r.quantity_required) reqs
      → (is_empty (
            keep
              (λ (r : RequirementResolution). not r.satisfied)
              (resolve_all to_ms resources reservations slot now reqs))
          ≡ true)
        ↔ All IsReservable reqs
  unfolding resolve_all
  All-IsReservable [] h = (λ _. tt, λ _. refl)
  All-IsReservable (req ∷ reqs) (q, h) =
      let e = satisfied-reservable req (get resources req.resource_id) q in
      let (f, g) = All-IsReservable reqs h in
      elim (Bool-cases (reservable req (get resources req.resource_id))) [
        | inl t ↦ rw (e, t) (λ k. (refl, f k), λ (_, k). g k)
        | inr n ↦ rw (e, n) (λ k. absurd (cc), λ (k, _). absurd (cc))
      ]

  -- Requirements of at least one unit each are found satisfiable exactly if every one names a
  -- resource that is known and of which that many units can be reserved for the slot now.
  pub resolve_service_requirements-satisfiable :
      (reqs : List ServiceResourceRequirement)
      → All (λ (r : ServiceResourceRequirement). 1 ≤ r.quantity_required) reqs
      → ((resolve_service_requirements to_ms resources reservations slot now reqs).satisfiable
          ≡ true)
        ↔ All IsReservable reqs
  unfolding resolve_service_requirements
  resolve_service_requirements-satisfiable reqs h = All-IsReservable reqs h

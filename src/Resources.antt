-- ===== src/Resources.antt =====
-- packages/resources/src: resources that slots share, and who holds a unit of one. Date texts are
-- read by a parameter `to_ms`, in milliseconds; no number stands for NaN.
pub mod Occupancy
pub mod Requirements
pub mod Tests
use booking_lumin_checkout.Base.{
  ℕ, suc, ◌+◌, ◌-◌, String, Bool, true, false, not, ◌&&◌, ◌==◌, Option, none, some, List, [], ◌∷◌,
  map, keep, is_empty, ltb, leb, if◌then◌else◌,
}
use booking_lumin_checkout.Base.Int.{ℤ, ltb_ℤ}
use booking_lumin_checkout.Base.Dict.{Dict, get}

pub data ResourceKind : Type 0 where
  vehicle crew technician trailer equipment room generic : ResourceKind

pub data ResourceMode : Type 0 where
  exclusive pooled : ResourceMode

pub record Resource : Type 0 where
  pub id : String
  pub tenant_id : String
  pub name : String
  pub kind : ResourceKind
  pub mode : ResourceMode
  pub capacity : ℕ
  pub active : Bool

pub data ReservationStatus : Type 0 where
  held consumed released expired : ReservationStatus

pub record ResourceReservation : Type 0 where
  pub id : String
  pub tenant_id : String
  pub resource_id : String
  pub booking_id : String
  pub slot_start : String
  pub slot_end : String
  pub status : ReservationStatus
  pub expires_at : String

pub record ServiceResourceRequirement : Type 0 where
  pub service_id : String
  pub resource_id : String
  pub quantity_required : ℕ

pub record ResourceSlot : Type 0 where
  pub start : String
  pub end : String

-- Comparisons of two dates: one that cannot be read compares as false.
abbrev pub is_after : Option ℤ → Option ℤ → Bool
is_after (some a) (some b) = ltb_ℤ b a
is_after _ _ = false

unfoldable pub spans_overlap : (as' ae bs be : Option ℤ) → Bool
spans_overlap (some as') (some ae) (some bs) (some be) = ltb_ℤ as' be && ltb_ℤ bs ae
spans_overlap _ _ _ _ = true

unfoldable pub effective_capacity : Resource → ℕ
effective_capacity resource = elim (resource.mode) [
  | ResourceMode.exclusive ↦ 1
  | ResourceMode.pooled ↦ resource.capacity
]

module _ (to_ms : String → Option ℤ) where
  abbrev pub overlaps : (a_start a_end b_start b_end : String) → Bool
  overlaps a_start a_end b_start b_end =
      spans_overlap (to_ms a_start) (to_ms a_end) (to_ms b_start) (to_ms b_end)

  unfoldable pub is_holding : ResourceReservation → String → Bool
  is_holding r now = elim (r.status) [
    | ReservationStatus.consumed ↦ true
    | ReservationStatus.held ↦ is_after (to_ms r.expires_at) (to_ms now)
    | _ ↦ false
  ]

  unfoldable pub reservation_consumes : ResourceReservation → ResourceSlot → String → Bool
  unfolding is_holding spans_overlap
  reservation_consumes r slot now =
      if is_holding r now then overlaps r.slot_start r.slot_end slot.start slot.end else false

  -- The loop that counts the units that are taken.
  unfoldable pub count_consumed : String → List ResourceReservation → ResourceSlot → String → ℕ
  unfolding reservation_consumes
  count_consumed id [] slot now = 0
  count_consumed id (r ∷ rs) slot now =
      let rest = count_consumed id rs slot now in
      if (r.resource_id == id) && reservation_consumes r slot now then suc rest else rest

  unfoldable pub resource_availability :
      Resource → List ResourceReservation → ResourceSlot → String → ℕ
  unfolding effective_capacity count_consumed
  resource_availability resource reservations slot now =
      if not resource.active
      then 0
      else effective_capacity resource - count_consumed resource.id reservations slot now

  unfoldable pub can_reserve :
      Resource → List ResourceReservation → ResourceSlot → String → ℕ → Bool
  unfolding resource_availability
  can_reserve resource reservations slot now quantity =
      if ltb quantity 1
      then false
      else leb quantity (resource_availability resource reservations slot now)

pub record RequirementResolution : Type 0 where
  pub service_id : String
  pub resource_id : String
  pub quantity_required : ℕ
  pub remaining : ℕ
  pub satisfied : Bool
  pub missing : Bool

pub record ServiceRequirementResult : Type 0 where
  pub satisfiable : Bool
  pub resolutions : List RequirementResolution
  pub shortfalls : List RequirementResolution

module _ (to_ms : String → Option ℤ) (resources : Dict Resource)
    (reservations : List ResourceReservation) (slot : ResourceSlot) (now : String) where
  unfoldable pub resolve_with : ServiceResourceRequirement → Option Resource → RequirementResolution
  unfolding resource_availability
  resolve_with req none = record {
    service_id = req.service_id;
    resource_id = req.resource_id;
    quantity_required = req.quantity_required;
    remaining = 0;
    satisfied = false;
    missing = true;
  }
  resolve_with req (some resource) =
      let remaining = resource_availability to_ms resource reservations slot now in
      record {
        service_id = req.service_id;
        resource_id = req.resource_id;
        quantity_required = req.quantity_required;
        remaining = remaining;
        satisfied = leb req.quantity_required remaining;
        missing = false;
      }

  unfoldable pub resolve_all : List ServiceResourceRequirement → List RequirementResolution
  unfolding resolve_with
  resolve_all [] = []
  resolve_all (req ∷ reqs) = resolve_with req (get resources req.resource_id) ∷ resolve_all reqs

  unfoldable pub resolve_service_requirements :
      List ServiceResourceRequirement → ServiceRequirementResult
  unfolding resolve_all
  resolve_service_requirements requirements =
      let resolutions = resolve_all requirements in
      let shortfalls = keep (λ (r : RequirementResolution). not r.satisfied) resolutions in
      record {
        satisfiable = is_empty shortfalls;
        resolutions = resolutions;
        shortfalls = shortfalls;
      }

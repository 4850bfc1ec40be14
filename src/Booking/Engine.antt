-- ===== src/Booking/Engine.antt =====
-- packages/core/src/booking.ts: the state of the engine and its operations. The source awaits the
-- payment provider in two places; there an operation is cut in two, and what it does until the
-- `await` and after it are functions of their own. Records are shared by the engine's maps and by
-- the callers, so they stand on a heap, and a number refers to one.
use booking_lumin_checkout.Base.{
  ℕ, ◌+◌, String, Bool, true, false, not, ◌&&◌, ◌||◌, ◌==◌, Option, none, some, List, [], ◌∷◌, ◌++◌,
  map, get_elem?, set, keep,
}
use booking_lumin_checkout.Base.Dict.{Dict, get}
use booking_lumin_checkout.Base.Result.{Result, ok, err}
use booking_lumin_checkout.Contracts.Money.{Money, MoneyError, add_money}
use booking_lumin_checkout.Contracts.Service.{Service, Selection, PriceBreakdown}
use booking_lumin_checkout.Contracts.Availability.{
  AvailabilityRule, AvailabilityOverride, SchedulingPolicy, CapacityHold, AvailabilityQuery,
}
use booking_lumin_checkout.Contracts.Booking.{
  BookingState, state_eq, allowed, CreateBookingRequest, BookingRecord, BookingStateChange,
}
use booking_lumin_checkout.Pricing.Refusals.{Reason}

-- What the operations throw, by error code; `still_searching` and `dangling` are the model's own,
-- for a search of a reference that goes on and for a number that refers to no record.
pub data Fault : Type 0 where
  invalid_request service_not_found service_inactive payment_amount_mismatch : Fault
  invalid_selection : Reason → Fault
  currency_mismatch : MoneyError → Fault
  range_error availability_unverifiable slot_unavailable : Fault
  illegal_transition booking_not_found payment_failed : Fault
  still_searching dangling : Fault

-- The options of the engine, with the clock and the id factory as the sequences of what they return,
-- and what the engine uses of JavaScript and of zod. `is_slot_available` is `none` where the
-- availability engine throws, `end_of` adds minutes to an instant and `to_iso` renders one anew.
pub record Options : Type 0 where
  pub services : List Service
  pub rules : List AvailabilityRule
  pub overrides : List AvailabilityOverride
  pub policy : SchedulingPolicy
  pub tenant_timezone : String
  pub price : Service → Selection → Result Reason PriceBreakdown
  pub is_slot_available : AvailabilityQuery → String → Option Bool
  pub now : ℕ → String
  pub id_factory : ℕ → String
  pub well_formed : CreateBookingRequest → Bool
  pub zone_valid : String → Bool
  pub end_of : String → ℕ → Option String
  pub to_iso : String → Option String
  pub idem_key : String → String → String
  pub search_fuel : ℕ

pub record State : Type 0 where
  pub records : List BookingRecord
  pub bookings : Dict ℕ
  pub by_key : Dict ℕ
  pub pending_by_key : Dict ℕ
  pub history : List BookingStateChange
  pub booking_by_intent : Dict String
  pub intent_by_booking : Dict String
  pub attempt_by_key : Dict ℕ
  pub references : List String
  pub ticks : ℕ
  pub minted : ℕ

-- What an operation throws or returns, and the state that it leaves in either case.
abbrev pub M : Type 0 → Type 0
M A = State → Result Fault A × State

abbrev pub continue : {A B : Type 0} → Result Fault A × State → (A → M B) → Result Fault B × State
continue (ok a, s) f = f a s
continue (err e, s) f = (err e, s)

infixl 5 ◌>>=◌ ◌>>◌
unfoldable pub ◌>>=◌ : {A B : Type 0} → M A → (A → M B) → M B
◌>>=◌ m f s = continue (m s) f

unfoldable pub ◌>>◌ : {B : Type 0} → M (Unit {0}) → M B → M B
unfolding ◌>>=◌
m >> k = m >>= λ _. k

unfoldable pub throw : {A : Type 0} → Fault → M A
throw e s = (err e, s)

unfoldable pub done : {A : Type 0} → A → M A
done a s = (ok a, s)

unfoldable pub guard : Bool → Fault → M (Unit {0})
guard true e s = (err e, s)
guard false e s = (ok tt, s)

unfoldable pub lift : {A : Type 0} → Option A → Fault → M A
lift none e s = (err e, s)
lift (some a) e s = (ok a, s)

unfoldable pub read : M State
read s = (ok s, s)

unfoldable pub write : (State → State) → M (Unit {0})
write f s = (ok tt, f s)

unfoldable pub deref : ℕ → M BookingRecord
unfolding lift
deref ref s = lift (get_elem? s.records ref) Fault.dangling s

abbrev pub holds_slot : BookingState → Bool
holds_slot state =
    state_eq state BookingState.pending_payment || state_eq state BookingState.confirmed

-- `getBooking`.
unfoldable pub get_booking : State → String → Option BookingRecord
get_booking s id = elim (get s.bookings id) [ none ↦ none | some ref ↦ get_elem? s.records ref ]

abbrev pub in_map : List BookingRecord → Dict ℕ → List BookingRecord
in_map records [] = []
in_map records ((id, ref) ∷ m) = elim (get_elem? records ref) [
  | none ↦ in_map records m
  | some r ↦ r ∷ in_map records m
]

unfoldable pub list_bookings : State → String → List BookingRecord
list_bookings s tenant =
    keep (λ (b : BookingRecord). b.tenant_id == tenant) (in_map s.records s.bookings)

unfoldable pub get_history : State → String → List BookingStateChange
get_history s id = keep (λ (h : BookingStateChange). h.booking_id == id) s.history

unfoldable pub intent_id_for_booking : State → String → Option String
intent_id_for_booking s id = get s.intent_by_booking id

unfoldable pub active_holds : State → String → List CapacityHold
active_holds s tenant =
    map (λ (b : BookingRecord). record { start = b.slot_start; end = b.slot_end })
      (keep (λ (b : BookingRecord). b.tenant_id == tenant && holds_slot b.state)
        (in_map s.records s.bookings))

unfoldable pub lift_result : {A E : Type 0} → Result E A → (E → Fault) → M A
lift_result (ok a) f s = (ok a, s)
lift_result (err e) f s = (err (f e), s)

abbrev pub charge_of : PriceBreakdown → Result MoneyError Money
charge_of p = add_money p.total p.deposit

-- All that a run of an operation computes with.
unfoldable pub monad : Unit {0}
unfolding ◌>>=◌ ◌>>◌ throw done guard lift read write deref lift_result
monad = tt

module _ (opts : Options) where
  unfoldable pub tick : M String
  tick s = (ok (opts.now s.ticks), record s { ticks = s.ticks + 1 })

  unfoldable pub mint : M String
  mint s = (ok (opts.id_factory s.minted), record s { minted = s.minted + 1 })

  -- The payment id of a record that becomes confirmed without one.
  unfoldable pub payment_id_for : BookingState → Option String → M (Option String)
  unfolding mint
  payment_id_for BookingState.confirmed none = do id ← mint; done (some id)
  payment_id_for _ payment_id = done payment_id

  unfoldable pub apply_transition : ℕ → BookingState → Option String → M (Unit {0})
  apply_transition ref to reason = do
    r ← deref ref
    guard (not (allowed r.state to)) Fault.illegal_transition
    at ← tick
    payment_id ← payment_id_for to r.payment_id
    write λ s. record s {
      history =
          s.history
          ++ (record { booking_id = r.id; from = r.state; to = to; at = at; reason = reason } ∷ []);
      records =
          set s.records ref (record r { state = to; updated_at = at; payment_id = payment_id });
    }

  unfoldable pub transition : String → BookingState → Option String → M ℕ
  transition id to reason = do
    s ← read
    ref ← lift (get s.bookings id) Fault.booking_not_found
    guard (state_eq to BookingState.confirmed) Fault.illegal_transition
    apply_transition ref to reason
    done ref

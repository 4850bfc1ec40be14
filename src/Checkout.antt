-- ===== src/Checkout.antt =====
-- apps/checkout/src: the reducer of the checkout wizard (state/checkout.tsx), the request that its
-- payment step sends (steps/Payment.tsx), and the wizard's own check of a selection
-- (state/validation.ts). The key that `createIdempotencyKey` would make, the texts of
-- `JSON.stringify`, and the uploaded media are parameters.
pub mod Keys
pub mod Gate
pub mod Tests
use booking_lumin_checkout.Base.{
  ℕ, String, Bool, true, false, not, ◌&&◌, ◌||◌, ◌==◌, nat_eq, Option, none, some, List, [], ◌∷◌,
  ◌++◌, is_empty, any, or_else, is_some, if◌then◌else◌,
}
use booking_lumin_checkout.Base.Int.{ℤ, pos, ◌+ℤ◌, ltb_ℤ, eq_ℤ}
use booking_lumin_checkout.Base.Dict.{Dict, get}
use booking_lumin_checkout.Contracts.Availability.{Slot}
use booking_lumin_checkout.Contracts.Service.{
  ServiceItem, QuestionKind, single_choice, multi_choice, quantity, ServiceQuestion, Answer,
  Service, Selection,
}
use booking_lumin_checkout.Contracts.Booking.{
  CustomerDetails, Address, CreateBookingRequest, BookingRecord,
}

pub data CheckoutStep : Type 0 where
  service configure summary slot customer payment confirmation : CheckoutStep

abbrev step_order : CheckoutStep → ℕ
step_order CheckoutStep.service = 0
step_order CheckoutStep.configure = 1
step_order CheckoutStep.summary = 2
step_order CheckoutStep.slot = 3
step_order CheckoutStep.customer = 4
step_order CheckoutStep.payment = 5
step_order CheckoutStep.confirmation = 6

abbrev pub same_step : CheckoutStep → CheckoutStep → Bool
same_step a b = nat_eq (step_order a) (step_order b)

pub data PaymentStatus : Type 0 where
  idle working failed succeeded : PaymentStatus

pub record StepMessage : Type 0 where
  pub step : CheckoutStep
  pub text : String

pub record CustomerDraft : Type 0 where
  pub name : String
  pub email : String
  pub phone : String
  pub wants_address : Bool
  pub line1 : String
  pub line2 : String
  pub city : String
  pub region : String
  pub postal_code : String
  pub country : String

abbrev pub empty_customer_draft : CustomerDraft
empty_customer_draft = record {
  name = "";
  email = "";
  phone = "";
  wants_address = false;
  line1 = "";
  line2 = "";
  city = "";
  region = "";
  postal_code = "";
  country = "US";
}

-- `Partial<CustomerDraft>`.
pub record DraftPatch : Type 0 where
  pub name : Option String
  pub email : Option String
  pub phone : Option String
  pub wants_address : Option Bool
  pub line1 : Option String
  pub line2 : Option String
  pub city : Option String
  pub region : Option String
  pub postal_code : Option String
  pub country : Option String

abbrev patched_draft : CustomerDraft → DraftPatch → CustomerDraft
patched_draft d p = record {
  name = or_else p.name d.name;
  email = or_else p.email d.email;
  phone = or_else p.phone d.phone;
  wants_address = or_else p.wants_address d.wants_address;
  line1 = or_else p.line1 d.line1;
  line2 = or_else p.line2 d.line2;
  city = or_else p.city d.city;
  region = or_else p.region d.region;
  postal_code = or_else p.postal_code d.postal_code;
  country = or_else p.country d.country;
}

pub record CheckoutState (Media : Type 0) : Type 0 where
  pub step : CheckoutStep
  pub selection : Option Selection
  pub slot : Option Slot
  pub slot_availability_pending : Bool
  pub customer_draft : CustomerDraft
  pub customer : Option CustomerDetails
  pub address : Option Address
  pub attempted : CheckoutStep → Bool
  pub idempotency_key : String
  pub booking : Option BookingRecord
  pub intent_id : Option String
  pub payment_status : PaymentStatus
  pub step_message : Option StepMessage
  pub media : List Media

pub data CheckoutAction (Media : Type 0) : Type 0 where
  select_service : Service → CheckoutAction Media
  set_selection : Selection → CheckoutAction Media
  set_slot : Slot → CheckoutAction Media
  clear_slot : CheckoutAction Media
  availability_pending : Bool → CheckoutAction Media
  set_customer_draft : DraftPatch → CheckoutAction Media
  confirm_customer : CustomerDetails → Option Address → CheckoutAction Media
  goto : CheckoutStep → CheckoutAction Media
  attempt : CheckoutStep → CheckoutAction Media
  booking_created : BookingRecord → CheckoutAction Media
  set_intent : String → CheckoutAction Media
  set_payment_status : PaymentStatus → CheckoutAction Media
  payment_succeeded : BookingRecord → CheckoutAction Media
  payment_failed : String → CheckoutAction Media
  return_to : CheckoutStep → String → (clear_slot : Bool) → CheckoutAction Media
  add_media : Media → CheckoutAction Media
  reset : CheckoutAction Media

abbrev pub empty_selection : String → Selection
empty_selection service_id = record {
  service_id = service_id;
  item_quantities = [];
  addon_ids = [];
  answers = [];
  rental_periods = none;
}

unfoldable pub has_configuration : Service → Bool
has_configuration s =
    not (is_empty s.items) || (not (is_empty s.addons) || not (is_empty s.questions))

abbrev chosen_service : Option Selection → String → Bool
chosen_service none id = false
chosen_service (some selection) id = selection.service_id == id

abbrev is_at : Option StepMessage → CheckoutStep → Bool
is_at none step = false
is_at (some m) step = same_step m.step step

module _ {Media : Type 0} where
  -- `fresh` is what `createIdempotencyKey` makes, if the code calls it.
  unfoldable pub create_fresh_state : String → CheckoutState Media
  create_fresh_state fresh = record {
    step = CheckoutStep.service;
    selection = none;
    slot = none;
    slot_availability_pending = false;
    customer_draft = empty_customer_draft;
    customer = none;
    address = none;
    attempted = λ _. false;
    idempotency_key = fresh;
    booking = none;
    intent_id = none;
    payment_status = PaymentStatus.idle;
    step_message = none;
    media = [];
  }

  -- `{ ...next, ...invalidateBooking(state) }`.
  unfoldable pub invalidate_booking :
      String → CheckoutState Media → CheckoutState Media → CheckoutState Media
  invalidate_booking fresh state next = record next {
    booking = none;
    slot_availability_pending = false;
    intent_id = none;
    payment_status = PaymentStatus.idle;
    idempotency_key = if is_some state.booking then fresh else state.idempotency_key;
  }

  unfoldable pub choose_service : String → CheckoutState Media → Service → CheckoutState Media
  unfolding has_configuration invalidate_booking
  choose_service fresh state s =
      let next = (if has_configuration s then CheckoutStep.configure else CheckoutStep.summary) in
      if chosen_service state.selection s.id
      then record state { step = next; step_message = none }
      else invalidate_booking fresh state (record state {
        step = next;
        selection = some (empty_selection s.id);
        slot = none;
        attempted = λ _. false;
        step_message = none;
        media = [];
      })

  -- `same_json` says that `JSON.stringify` gives the same text for two customers and addresses.
  unfoldable pub checkout_reducer :
      (same_json : Option CustomerDetails
        → Option Address
        → Option CustomerDetails
        → Option Address
        → Bool)
      → String
      → CheckoutState Media
      → CheckoutAction Media
      → CheckoutState Media
  unfolding choose_service invalidate_booking create_fresh_state
  checkout_reducer same_json fresh state (select_service s) = choose_service fresh state s
  checkout_reducer same_json fresh state (set_selection selection) =
      invalidate_booking fresh state (record state { selection = some selection; slot = none })
  checkout_reducer same_json fresh state clear_slot =
      invalidate_booking fresh state (record state { slot = none })
  checkout_reducer same_json fresh state (availability_pending pending) = record state {
    slot_availability_pending = pending;
  }
  checkout_reducer same_json fresh state (set_slot picked) =
      invalidate_booking fresh state (record state {
        slot = some picked;
        step_message =
            if is_at state.step_message CheckoutStep.slot then none else state.step_message;
      })
  checkout_reducer same_json fresh state (set_customer_draft patch) = record state {
    customer_draft = patched_draft state.customer_draft patch;
  }
  checkout_reducer same_json fresh state (confirm_customer details address) =
      let next = record state { customer = some details; address = address } in
      if same_json state.customer state.address (some details) address
      then next
      else invalidate_booking fresh state next
  checkout_reducer same_json fresh state (goto step) = record state {
    step = step;
    step_message = none;
    slot_availability_pending = same_step step CheckoutStep.slot;
  }
  checkout_reducer same_json fresh state (attempt step) = record state {
    attempted = λ s. same_step s step || state.attempted s;
  }
  checkout_reducer same_json fresh state (booking_created booking) = record state {
    booking = some booking;
  }
  checkout_reducer same_json fresh state (set_intent intent_id) = record state {
    intent_id = some intent_id;
  }
  checkout_reducer same_json fresh state (set_payment_status status) = record state {
    payment_status = status;
  }
  checkout_reducer same_json fresh state (payment_succeeded booking) = record state {
    booking = some booking;
    payment_status = PaymentStatus.succeeded;
    step = CheckoutStep.confirmation;
    step_message = none;
  }
  checkout_reducer same_json fresh state (payment_failed message) = record state {
    payment_status = PaymentStatus.failed;
    step_message = some (record { step = CheckoutStep.payment; text = message });
  }
  checkout_reducer same_json fresh state (return_to step message clear) = record state {
    step = step;
    step_message = some (record { step = step; text = message });
    slot = if clear then none else state.slot;
    booking = none;
    intent_id = none;
    payment_status = PaymentStatus.idle;
  }
  checkout_reducer same_json fresh state (add_media m) = record state {
    media = state.media ++ (m ∷ []);
  }
  checkout_reducer same_json fresh state reset = create_fresh_state fresh

-- The request of a session: there is none before a selection, a slot and a customer stand.
abbrev pub request_of :
    (tenant : String)
    → String
    → Option Selection
    → Option Slot
    → Option CustomerDetails
    → Option Address
    → Option CreateBookingRequest
request_of tenant key (some selection) (some picked) (some details) address = some (record {
  tenant_id = tenant;
  idempotency_key = key;
  selection = selection;
  slot_start = picked.start;
  customer = details;
  address = address;
  notes = none;
})
request_of tenant key _ _ _ address = none

-- `effective` adds what the service's flow decides to a selection.
abbrev pub effective_of : (Selection → Selection) → Option Selection → Option Selection
effective_of effective none = none
effective_of effective (some selection) = some (effective selection)

abbrev pub booking_request :
    {Media : Type 0} (tenant : String)
    → (Selection → Selection)
    → CheckoutState Media
    → Option CreateBookingRequest
booking_request tenant effective state =
    request_of tenant state.idempotency_key (effective_of effective state.selection) state.slot
      state.customer state.address

-- The id of what an issue is about, without its message.
abbrev pub SelectionIssue : Type 0
SelectionIssue = String

-- The loop over the items: their issues.
unfoldable pub item_issues : Dict ℤ → List ServiceItem → List SelectionIssue
item_issues quantities [] = []
item_issues quantities (item ∷ items) =
    let qty = or_else (get quantities item.id) (pos 0) in
    let rest = item_issues quantities items in
    if ltb_ℤ qty item.min_qty || ltb_ℤ item.max_qty qty then "items" ∷ rest else rest

-- The loop over the items: how many are chosen.
unfoldable pub total_quantity : Dict ℤ → List ServiceItem → ℤ
total_quantity quantities [] = pos 0
total_quantity quantities (item ∷ items) =
    or_else (get quantities item.id) (pos 0) +ℤ total_quantity quantities items

unfoldable pub cart_issues : Dict ℤ → List ServiceItem → List SelectionIssue
unfolding item_issues total_quantity
cart_issues quantities items =
    let issues = item_issues quantities items in
    if is_empty items
    then []
    else if eq_ℤ (total_quantity quantities items) (pos 0) && not (any (λ i. i == "items") issues)
    then issues ++ ("items" ∷ [])
    else issues

-- `answer?.quantity ?? 0` and `answer?.choiceIds ?? []`.
abbrev pub quantity_answered : Option Answer → ℤ
quantity_answered none = pos 0
quantity_answered (some a) = or_else a.quantity (pos 0)

abbrev pub answered_choices : Option Answer → List String
answered_choices none = []
answered_choices (some a) = a.choice_ids

unfoldable pub is_unanswered : QuestionKind → ServiceQuestion → Option Answer → Bool
is_unanswered quantity q answer =
    let min = or_else q.min_qty (pos 0) in
    q.required && (ltb_ℤ (pos 0) min && ltb_ℤ (quantity_answered answer) min)
is_unanswered _ q answer = q.required && is_empty (answered_choices answer)

unfoldable pub question_issues :
    List String → Dict Answer → List ServiceQuestion → List SelectionIssue
unfolding is_unanswered
question_issues hidden answers [] = []
question_issues hidden answers (q ∷ questions) =
    let rest = question_issues hidden answers questions in
    if any (λ id. id == q.id) hidden
    then rest
    else if is_unanswered q.kind q (get answers q.id)
    then q.id ∷ rest
    else rest

unfoldable pub validate_selection : Service → Selection → List String → List SelectionIssue
unfolding cart_issues question_issues
validate_selection s selection hidden =
    cart_issues selection.item_quantities s.items
    ++ question_issues hidden selection.answers s.questions

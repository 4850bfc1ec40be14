-- ===== src/Billing/Tests.antt =====
-- Runs of the billing functions on a plan and a subscription.
use booking_lumin_checkout.Base.{
  String, true, false, ◌≡◌, ◌⊎◌, refl, none, some, List, [], ◌∷◌, if◌then◌else◌,
}
use booking_lumin_checkout.Base.Int.{pos}
use booking_lumin_checkout.Base.Result.{ok, err, is_ok}
use booking_lumin_checkout.Billing.Plans.{
  AddOn, Plan, PlanCatalog, BillingInterval, plan_addon, check_plans, check_addons, check_keys,
  check_plan_addons, make_plan_catalog,
}
use booking_lumin_checkout.Billing.Subscription.{
  SubscriptionStatus, Subscription, PlanChange, Direction, ProrationPolicy, Operation,
  can_transition, transition, change_plan, cancel_at_period_end, cancel_immediately,
  clear_scheduled_cancel, operate, operate-moves,
}
use booking_lumin_checkout.Base.{◌==◌, subst, inl, inr, same_some, eq_iff, Bool-cases}
use booking_lumin_checkout.Base.Dict.{get, put}
use booking_lumin_checkout.Base.Decimal.{decimal, decimal_from}
use booking_lumin_checkout.Billing.Plans.{get_plan}
use booking_lumin_checkout.Billing.Provider.{
  BillingState, BillingFault, MockOptions, CreateSubscriptionInput, NormalizedBillingEvent,
  no_subscriptions, create_subscription,
}
use booking_lumin_checkout.Billing.Steady.{IsKeyed}
use booking_lumin_checkout.Billing.Closed.{Call, run, run-canceled}
use booking_lumin_checkout.Billing.Entitlement.{has_access, entitlements, entitlements-change_plan}

billing : Unit {0}
unfolding check_plans check_addons check_keys check_plan_addons make_plan_catalog transition
    change_plan cancel_at_period_end cancel_immediately clear_scheduled_cancel operate entitlements
billing = tt

abbrev starter : Plan
starter = record {
  key = "starter";
  name = "Starter";
  interval = BillingInterval.monthly;
  amount = pos 0;
  currency = "USD";
  trial_days = 0;
  features = "booking" ∷ [];
  addon_keys = "sms" ∷ [];
}

abbrev catalog : List AddOn → PlanCatalog
catalog addons = record { currency = "USD"; plans = starter ∷ []; addons = addons }

abbrev sms : AddOn
sms = record { key = "sms"; name = "SMS reminders"; amount = pos 1500; currency = "USD" }

catalog_tests :
    (make_plan_catalog (λ c. true) (catalog (sms ∷ [])) ≡ ok (catalog (sms ∷ [])))
    × (make_plan_catalog (λ c. true) (catalog []) ≡ err (plan_addon "starter" "sms"))
unfolding billing
catalog_tests = (refl, refl)

abbrev subscribed : Subscription
subscribed = record {
  id = "sub_1";
  tenant_id = "t1";
  plan_key = "pro";
  status = SubscriptionStatus.active;
  current_period_start = "2026-03-01T00:00:00.000Z";
  current_period_end = "2026-04-01T00:00:00.000Z";
  trial_end = none;
  cancel_at_period_end = false;
  addon_keys = "extra_seats" ∷ "sms" ∷ [];
}

abbrev downgrade : PlanChange
downgrade = record {
  to_plan_key = "starter";
  direction = Direction.downgrade;
  proration = ProrationPolicy.at_period_end;
  proration_minor_units = none;
}

abbrev downgraded : Subscription
downgraded = record subscribed { plan_key = "starter"; addon_keys = "sms" ∷ [] }

changed : change_plan subscribed downgrade ("sms" ∷ []) ≡ ok (downgraded, downgrade)
unfolding billing
changed = refl

entitlements-change_plan_example :
    entitlements downgraded starter
    ≡ ok (
        if has_access SubscriptionStatus.active
        then record { features = "booking" ∷ []; active_addons = "sms" ∷ []; is_active = true }
        else record { features = []; active_addons = []; is_active = false })
entitlements-change_plan_example =
    entitlements-change_plan subscribed downgrade starter refl changed

abbrev closed : Subscription
closed = record subscribed { status = SubscriptionStatus.canceled }

late :
    operate (Operation.move SubscriptionStatus.past_due) subscribed
    ≡ ok (record subscribed { status = SubscriptionStatus.past_due })
unfolding billing
late = refl

operate-moves_example :
    (◌≡◌ {A = String} "sub_1" "sub_1")
    × (◌≡◌ {A = String} "t1" "t1")
    × ((SubscriptionStatus.past_due ≡ SubscriptionStatus.active)
        ⊎ (can_transition SubscriptionStatus.active SubscriptionStatus.past_due ≡ true))
operate-moves_example = operate-moves (Operation.move SubscriptionStatus.past_due) subscribed late

abbrev mock : MockOptions
mock = record {
  plans = catalog (sms ∷ []);
  period_days = 30;
  id_prefix = "sub";
  add_days = λ iso days. if iso == "" then none else some "2026-04-01T00:00:00.000Z";
  parses = λ r. true;
}

abbrev one_closed : BillingState
one_closed = record no_subscriptions { subs = ("sub_1", closed) ∷ [] }

one_closed-IsKeyed : IsKeyed one_closed.subs
unfolding get
one_closed-IsKeyed i sub h = elim (Bool-cases ("sub_1" == i)) [
  | inl t ↦
      let same : closed ≡ sub = same_some (rw t at h) in
      subst (λ (x : Subscription). x.id ≡ i) same ((eq_iff "sub_1" i).0 t)
  | inr f ↦ absurd (let k = rw f at h in cc)
]

one_closed_found : get one_closed.subs "sub_1" ≡ some closed
unfolding get
one_closed_found = refl

abbrev revivals : List Call
revivals =
    Call.resume "sub_1"
    ∷ (Call.sync "sub_1" (NormalizedBillingEvent.renewal_succeeded "2026-04-01" "2026-05-01")
        ∷ (Call.renew "sub_1" true ∷ []))

run-canceled_example : get (run mock revivals one_closed).subs "sub_1" ≡ some closed
run-canceled_example =
    run-canceled mock revivals one_closed "sub_1" closed one_closed-IsKeyed one_closed_found refl

abbrev sign_up : CreateSubscriptionInput
sign_up = record {
  tenant_id = "t1";
  plan_key = "starter";
  addon_keys = "sms" ∷ [];
  start_at = "2026-03-02T00:00:00.000Z";
}

-- A date that cannot be read throws after the counter was raised.
sign_ups :
    ((create_subscription mock sign_up no_subscriptions).0.counter ≡ 1)
    × (is_ok (create_subscription mock sign_up no_subscriptions).1 ≡ true)
    × (create_subscription mock (record sign_up { start_at = "" }) no_subscriptions
        ≡ (record no_subscriptions { counter = 1 }, err BillingFault.invalid_date))
unfolding create_subscription get put decimal decimal_from get_plan
sign_ups = (refl, refl, refl)

-- ===== src/Billing/Provider.antt =====
-- packages/billing/src/provider.ts: the mock provider. An operation is a function from a state to a
-- state and a result, since an invoice that cannot be written throws after its subscription is stored.
-- The arithmetic on dates is a parameter, none where Date cannot read the text; what the schema of a
-- usage record checks beyond its types is `parses`.
use booking_lumin_checkout.Base.{
  ℕ, suc, ◌+◌, String, Bool, false, not, ◌==◌, Option, none, some, List, [], ◌∷◌, ◌++◌, length, any,
  all, ltb, or_else, if◌then◌else◌,
}
use Prim.Native.String
use booking_lumin_checkout.Base.Decimal.{decimal}
use booking_lumin_checkout.Base.Dict.{Dict, get, put}
use booking_lumin_checkout.Base.Result.{Result, ok, err, ◌>>=◌, ◌>>◌, throw_if}
use booking_lumin_checkout.Contracts.Money.{Money, money}
use booking_lumin_checkout.Billing.Plans.{Plan, PlanCatalog, CatalogError, get_plan}
use booking_lumin_checkout.Billing.Subscription.{
  SubscriptionStatus, Subscription, SubscriptionError, PlanChange, status_eq, transition,
  change_plan, cancel_at_period_end, cancel_immediately, clear_scheduled_cancel,
}

pub record UsageRecord : Type 0 where
  pub subscription_id : String
  pub metric : String
  pub quantity : ℕ
  pub at_time : String

pub data InvoiceStatus : Type 0 where
  paid unpaid void : InvoiceStatus

pub record Invoice : Type 0 where
  pub id : String
  pub subscription_id : String
  pub amount : Money
  pub status : InvoiceStatus
  pub period_start : String
  pub period_end : String

pub data NormalizedBillingEvent : Type 0 where
  renewal_succeeded : (period_start period_end : String) → NormalizedBillingEvent
  renewal_failed payment_recovered trial_ended : NormalizedBillingEvent
  ended : (as_of : String) → NormalizedBillingEvent

pub record CreateSubscriptionInput : Type 0 where
  pub tenant_id : String
  pub plan_key : String
  pub addon_keys : List String
  pub start_at : String

pub record BillingState : Type 0 where
  pub subs : Dict Subscription
  pub usage : Dict (List UsageRecord)
  pub invoices : Dict (List Invoice)
  pub counter : ℕ

abbrev pub no_subscriptions : BillingState
no_subscriptions = record { subs = []; usage = []; invoices = []; counter = 0 }

pub data BillingFault : Type 0 where
  catalog : CatalogError → BillingFault
  subscription : SubscriptionError → BillingFault
  invalid_date invalid_record : BillingFault

pub record MockOptions : Type 0 where
  pub plans : PlanCatalog
  pub period_days : ℕ
  pub id_prefix : String
  pub add_days : String → ℕ → Option String
  pub parses : UsageRecord → Bool

abbrev pub Reply : Type 0 → Type 0
Reply A = BillingState × Result BillingFault A

-- What a function of another module throws.
abbrev pub lifted {ℓ} : {E A : Type ℓ} → (E → BillingFault) → Result E A → Result BillingFault A
lifted f (ok a) = ok a
lifted f (err e) = err (f e)

abbrev pub sub_of : Option Subscription → Result BillingFault Subscription
sub_of none = err (BillingFault.subscription SubscriptionError.illegal_transition)
sub_of (some s) = ok s

abbrev pub must : BillingState → String → Result BillingFault Subscription
must s id = sub_of (get s.subs id)

abbrev pub store : BillingState → Subscription → BillingState
store s sub = record s { subs = put s.subs sub.id sub }

abbrev pub moved : Subscription → SubscriptionStatus → Result BillingFault Subscription
moved sub to = lifted BillingFault.subscription (transition sub to)

-- `put(...)` of a subscription, where computing it did not throw.
abbrev pub updated : BillingState → Result BillingFault Subscription → Reply Subscription
updated s (ok sub) = (store s sub, ok sub)
updated s (err e) = (s, err e)

abbrev pub list_of {ℓ} : {A : Type ℓ} → Option (List A) → List A
list_of o = or_else o []

-- An active subscription stays as it is; another one must be able to become active.
abbrev pub activated : Subscription → Result BillingFault Subscription
activated sub =
    if status_eq sub.status SubscriptionStatus.active
    then ok sub
    else moved sub SubscriptionStatus.active

module _ (opts : MockOptions) where
  abbrev pub plan_of : String → Result BillingFault Plan
  plan_of key = lifted BillingFault.catalog (get_plan opts.plans key)

  abbrev pub later : String → ℕ → Result BillingFault String
  later at_time days = date_of (opts.add_days at_time days)
    where
      date_of : Option String → Result BillingFault String
      date_of none = err BillingFault.invalid_date
      date_of (some t) = ok t

  -- `addInvoice`, after the subscription was stored.
  abbrev invoice_for : BillingState → Subscription → InvoiceStatus → Plan → BillingState
  invoice_for s sub status plan =
      let before = list_of (get s.invoices sub.id) in
      record s {
        invoices = put s.invoices sub.id (
            before
            ++ (record {
              id =
                  String.◌++◌ "inv_"
                    (String.◌++◌ sub.id (String.◌++◌ "_" (decimal (length before + 1))));
              subscription_id = sub.id;
              amount = money plan.amount plan.currency;
              status = status;
              period_start = sub.current_period_start;
              period_end = sub.current_period_end;
            }
                ∷ []));
      }

  abbrev pub with_invoice :
      BillingState → Subscription → InvoiceStatus → Result BillingFault Plan → Reply Subscription
  with_invoice s sub status (ok plan) = (invoice_for s sub status plan, ok sub)
  with_invoice s sub status (err e) = (s, err e)

  abbrev pub invoiced :
      BillingState → InvoiceStatus → Result BillingFault Subscription → Reply Subscription
  invoiced s status (ok sub) = with_invoice (store s sub) sub status (plan_of sub.plan_key)
  invoiced s status (err e) = (s, err e)

  abbrev permits : Plan → String → Bool
  permits plan k = any (λ a. a == k) plan.addon_keys

  abbrev new_subscription :
      CreateSubscriptionInput → String → Plan → Result BillingFault Subscription
  new_subscription input id plan = do
    let trialing = ltb 0 plan.trial_days
    end ← later input.start_at (if trialing then plan.trial_days else opts.period_days)
    ok (record {
      id = id;
      tenant_id = input.tenant_id;
      plan_key = plan.key;
      status = if trialing then SubscriptionStatus.trialing else SubscriptionStatus.active;
      current_period_start = input.start_at;
      current_period_end = end;
      trial_end = if trialing then some end else none;
      cancel_at_period_end = false;
      addon_keys = input.addon_keys;
    })

  abbrev permitted_plan : CreateSubscriptionInput → Result BillingFault Plan
  permitted_plan input = do
    plan ← plan_of input.plan_key
    throw_if (not (all (permits plan) input.addon_keys))
        (BillingFault.subscription SubscriptionError.invalid_addon)
    ok plan

  abbrev create_with :
      CreateSubscriptionInput → BillingState → Result BillingFault Plan → Reply Subscription
  create_with input s (err e) = (s, err e)
  create_with input s (ok plan) =
      let n = suc s.counter in
      let id = String.◌++◌ opts.id_prefix (String.◌++◌ "_" (decimal n)) in
      invoiced (record s { counter = n })
        (if ltb 0 plan.trial_days then InvoiceStatus.unpaid else InvoiceStatus.paid)
        (new_subscription input id plan)

  unfoldable pub create_subscription : CreateSubscriptionInput → BillingState → Reply Subscription
  create_subscription input s = create_with input s (permitted_plan input)

  unfoldable pub change_plan_of : String → PlanChange → BillingState → Reply Subscription
  change_plan_of id change s = updated s (
      must s id >>= λ current. plan_of change.to_plan_key >>= λ plan.
      lifted BillingFault.subscription (change_plan current change plan.addon_keys) >>= λ r. ok r.0)

  unfoldable pub cancel : String → Bool → Option String → BillingState → Reply Subscription
  cancel id immediately as_of s = updated s (
      must s id >>= λ current. lifted BillingFault.subscription (
        if immediately
        then cancel_immediately current (or_else as_of current.current_period_end)
        else cancel_at_period_end current))

  unfoldable pub reactivate : String → BillingState → Reply Subscription
  reactivate id s = updated s (
      must s id >>= λ current.
      if status_eq current.status SubscriptionStatus.past_due
      then moved current SubscriptionStatus.active
      else lifted BillingFault.subscription (clear_scheduled_cancel current))

  abbrev pub use_of :
      UsageRecord → BillingState → Result BillingFault Subscription → Reply (Unit {0})
  use_of r s (err e) = (s, err e)
  use_of r s (ok _) = (
    record s {
      usage = put s.usage r.subscription_id (list_of (get s.usage r.subscription_id) ++ (r ∷ []));
    },
    ok tt,
  )

  unfoldable pub record_usage : UsageRecord → BillingState → Reply (Unit {0})
  record_usage r s =
      use_of r s
        (if opts.parses r then must s r.subscription_id else err BillingFault.invalid_record)

  unfoldable pub list_invoices : String → BillingState → Result BillingFault (List Invoice)
  list_invoices id s = do current ← must s id; ok (list_of (get s.invoices id))

  unfoldable pub sync_from_provider_event :
      String → NormalizedBillingEvent → BillingState → Reply Subscription
  sync_from_provider_event id (renewal_succeeded period_start period_end) s =
      invoiced s InvoiceStatus.paid (
        must s id >>= λ current. activated current >>= λ base. ok (record base {
          current_period_start = period_start;
          current_period_end = period_end;
          trial_end = none;
        }))
  sync_from_provider_event id renewal_failed s =
      updated s (must s id >>= λ current. moved current SubscriptionStatus.past_due)
  sync_from_provider_event id payment_recovered s =
      updated s (must s id >>= λ current. moved current SubscriptionStatus.active)
  sync_from_provider_event id trial_ended s = updated s (
      must s id >>= λ current.
      if status_eq current.status SubscriptionStatus.trialing
      then moved current SubscriptionStatus.past_due
      else ok current)
  sync_from_provider_event id (ended as_of) s =
      updated s (
        must s id >>= λ current.
        lifted BillingFault.subscription (cancel_immediately current as_of))

  -- The branches of `simulateRenewal` on the subscription that is found.
  abbrev pub renewed : Subscription → Result BillingFault Subscription
  renewed current = activated current >>= λ base.
      later base.current_period_end opts.period_days >>= λ end. ok (record base {
        current_period_start = base.current_period_end;
        current_period_end = end;
        trial_end = none;
      })

  abbrev pub renew_found :
      BillingState → Bool → Result BillingFault Subscription → Reply Subscription
  renew_found s success (err e) = (s, err e)
  renew_found s success (ok current) =
      if current.cancel_at_period_end
      then updated s
          (lifted BillingFault.subscription (cancel_immediately current current.current_period_end))
      else if success
      then invoiced s InvoiceStatus.paid (renewed current)
      else updated s (moved current SubscriptionStatus.past_due)

  unfoldable pub simulate_renewal : String → Bool → BillingState → Reply Subscription
  simulate_renewal id success s = renew_found s success (must s id)

  unfoldable pub simulate_past_due : String → BillingState → Reply Subscription
  simulate_past_due id s =
      updated s (must s id >>= λ current. moved current SubscriptionStatus.past_due)

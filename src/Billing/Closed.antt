-- ===== src/Billing/Closed.antt =====
-- packages/billing/src/provider.ts: a subscription that is canceled stays as it is.
use booking_lumin_checkout.Base.{
  String, Bool, true, false, ◌≡◌, refl, sym, subst, ap, inl, inr, Option, none, some, List, [], ◌∷◌,
  Option-cases, if◌then◌else◌,
}
use booking_lumin_checkout.Base.Dict.{get}
use booking_lumin_checkout.Base.Result.{Result, ok, err, ◌>>=◌, ok-injective, >>=-elim}
use booking_lumin_checkout.Billing.Plans.{Plan}
use booking_lumin_checkout.Billing.Subscription.{
  SubscriptionStatus, Subscription, PlanChange, Operation, operate, change_plan, status_eq,
}
use booking_lumin_checkout.Billing.Provider.{
  BillingState, BillingFault, MockOptions, InvoiceStatus, NormalizedBillingEvent, UsageRecord,
  Reply, lifted, store, moved, updated, plan_of, later, with_invoice, invoiced, renewed,
  change_plan_of, cancel, reactivate, record_usage, use_of, sync_from_provider_event, renew_found,
  simulate_renewal, simulate_past_due,
}
use booking_lumin_checkout.Billing.Steady.{
  IsCanceled, Steady, IsKeyed, lifted-fst, Steady-operate, Keeps, found-Keeps, updated-Keeps,
  Steady-moved, Steady-cancel, Steady-if, Steady-same, Steady-clear, Steady-renewal,
}

-- A call on subscriptions that exist.
pub data Call : Type 0 where
  change_to : (id : String) → PlanChange → Call
  stop : (id : String) → Bool → Option String → Call
  resume : (id : String) → Call
  meter : UsageRecord → Call
  sync : (id : String) → NormalizedBillingEvent → Call
  renew : (id : String) → Bool → Call
  overdue : (id : String) → Call

unfoldable pub after : MockOptions → Call → BillingState → BillingState
unfolding change_plan_of cancel reactivate record_usage sync_from_provider_event simulate_renewal
    simulate_past_due
after opts (change_to id change) s = (change_plan_of opts id change s).0
after opts (stop id immediately as_of) s = (cancel opts id immediately as_of s).0
after opts (resume id) s = (reactivate opts id s).0
after opts (meter r) s = (record_usage opts r s).0
after opts (sync id event) s = (sync_from_provider_event opts id event s).0
after opts (renew id success) s = (simulate_renewal opts id success s).0
after opts (overdue id) s = (simulate_past_due opts id s).0

unfoldable pub run : MockOptions → List Call → BillingState → BillingState
unfolding after
run opts [] s = s
run opts (c ∷ cs) s = run opts cs (after opts c s)

module _ (opts : MockOptions) (id : String) (sub : Subscription) (closed : IsCanceled sub) where
  with_invoice-subs :
      (s : BillingState) (x : Subscription) (status : InvoiceStatus) (p : Result BillingFault Plan)
      → (with_invoice opts s x status p).0.subs ≡ s.subs
  with_invoice-subs s x status (ok plan) = refl
  with_invoice-subs s x status (err e) = refl

  -- An invoice changes no subscription.
  invoiced-subs :
      (s : BillingState) (status : InvoiceStatus) (r : Result BillingFault Subscription)
      → (updated s r).0.subs ≡ (invoiced opts s status r).0.subs
  invoiced-subs s status (ok x) =
      sym (with_invoice-subs (store s x) x status (plan_of opts x.plan_key))
  invoiced-subs s status (err e) = refl

  use_of-subs :
      (r : UsageRecord) (s : BillingState) (u : Result BillingFault Subscription)
      → s.subs ≡ (use_of opts r s u).0.subs
  use_of-subs r s (ok x) = refl
  use_of-subs r s (err e) = refl

  abbrev Holds : BillingState → BillingState → Type 0
  Holds s s' = Keeps id sub closed s.subs s'.subs

  Steady-change :
      (change : PlanChange)
      → Steady (λ cur. plan_of opts change.to_plan_key >>= λ plan.
          lifted BillingFault.subscription (change_plan cur change plan.addon_keys) >>= λ r. ok r.0)
  unfolding operate
  Steady-change change cur r h = >>=-elim (plan_of opts change.to_plan_key) _ h λ plan _ g.
      Steady-operate (Operation.change change plan.addon_keys) cur r
        (lifted-fst (change_plan cur change plan.addon_keys) g)

  sync-Holds :
      (i : String) (event : NormalizedBillingEvent) (s : BillingState)
      → Holds s (sync_from_provider_event opts i event s).0
  unfolding sync_from_provider_event
  sync-Holds i (NormalizedBillingEvent.renewal_succeeded a b) s =
      subst (Keeps id sub closed s.subs) (invoiced-subs s InvoiceStatus.paid _) (
        updated-Keeps id sub closed s i _
          (Steady-renewal _ λ base r e. ap (λ (x : Subscription). x.id) (sym (ok-injective e))))
  sync-Holds i NormalizedBillingEvent.renewal_failed s =
      updated-Keeps id sub closed s i _ (Steady-moved SubscriptionStatus.past_due)
  sync-Holds i NormalizedBillingEvent.payment_recovered s =
      updated-Keeps id sub closed s i _ (Steady-moved SubscriptionStatus.active)
  sync-Holds i NormalizedBillingEvent.trial_ended s = updated-Keeps id sub closed s i _ (
      Steady-if (λ cur. status_eq cur.status SubscriptionStatus.trialing)
        (λ cur. moved cur SubscriptionStatus.past_due) (λ cur. ok cur)
        (Steady-moved SubscriptionStatus.past_due) Steady-same)
  sync-Holds i (NormalizedBillingEvent.ended as_of) s =
      updated-Keeps id sub closed s i _ (Steady-cancel true (some as_of))

  renewed-id :
      (base r : Subscription)
      → (later opts base.current_period_end opts.period_days >>= λ end. ok (record base {
        current_period_start = base.current_period_end;
        current_period_end = end;
        trial_end = none;
      }))
        ≡ ok r
      → r.id ≡ base.id
  renewed-id base r h =
      >>=-elim (later opts base.current_period_end opts.period_days) _ h
        λ end _ e. ap (λ (x : Subscription). x.id) (sym (ok-injective e))

  either :
      (s : BillingState) (test : Bool) (x y : Reply Subscription)
      → Holds s x.0
      → Holds s y.0
      → Holds s (if test then x else y).0
  either s true x y h k = h
  either s false x y h k = k

  renew_found-Holds :
      (i : String) (success : Bool) (s : BillingState) (cur : Subscription)
      → get s.subs i ≡ some cur
      → Holds s (renew_found opts s success (ok cur)).0
  renew_found-Holds i success s cur here =
      either s cur.cancel_at_period_end _ _
        (found-Keeps id sub closed s i cur _ here (Steady-cancel true none cur))
        (either s success _ _
          (subst (Keeps id sub closed s.subs) (invoiced-subs s InvoiceStatus.paid _) (
            found-Keeps id sub closed s i cur (renewed opts cur) here
              (Steady-renewal _ renewed-id cur)))
          (found-Keeps id sub closed s i cur _ here (Steady-moved SubscriptionStatus.past_due cur)))

  renew-Holds :
      (i : String) (success : Bool) (s : BillingState)
      → Holds s (simulate_renewal opts i success s).0
  unfolding simulate_renewal
  renew-Holds i success s = elim (Option-cases (get s.subs i)) [
    | inl n ↦ rw n (λ keyed there. (keyed, there))
    | inr (cur, here) ↦ rw here (renew_found-Holds i success s cur here)
  ]

  after-Holds : (c : Call) (s : BillingState) → Holds s (after opts c s)
  unfolding after change_plan_of cancel reactivate record_usage simulate_past_due
  after-Holds (change_to i change) s = updated-Keeps id sub closed s i _ (Steady-change change)
  after-Holds (stop i immediately as_of) s =
      updated-Keeps id sub closed s i _ (Steady-cancel immediately as_of)
  after-Holds (resume i) s = updated-Keeps id sub closed s i _ (
      Steady-if (λ cur. status_eq cur.status SubscriptionStatus.past_due)
        (λ cur. moved cur SubscriptionStatus.active) _ (Steady-moved SubscriptionStatus.active)
        Steady-clear)
  after-Holds (meter r) s = λ keyed there.
      subst (λ m. IsKeyed m × (get m id ≡ some sub)) (use_of-subs r s _) (keyed, there)
  after-Holds (sync i event) s = sync-Holds i event s
  after-Holds (renew i success) s = renew-Holds i success s
  after-Holds (overdue i) s =
      updated-Keeps id sub closed s i _ (Steady-moved SubscriptionStatus.past_due)

-- In a provider that keeps every subscription under its own id, one that is canceled stays exactly as it
-- is under any calls on existing subscriptions and any events of the processor: nothing revives it,
-- renews it or changes its plan.
pub run-canceled :
    (opts : MockOptions) (calls : List Call) (s : BillingState) (id : String) (sub : Subscription)
    → IsKeyed s.subs
    → get s.subs id ≡ some sub
    → sub.status ≡ SubscriptionStatus.canceled
    → get (run opts calls s).subs id ≡ some sub
unfolding run
run-canceled opts [] s id sub keyed here c = here
run-canceled opts (call ∷ calls) s id sub keyed here c =
    let (keyed', here') = after-Holds opts id sub c call s keyed here in
    run-canceled opts calls (after opts call s) id sub keyed' here' c

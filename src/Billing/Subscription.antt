-- ===== src/Billing/Subscription.antt =====
-- packages/billing/src/subscription.ts: a subscription, its states and its operations. An instant is a
-- text.
use booking_lumin_checkout.Base.{
  ℕ, String, Bool, true, false, not, ◌==◌, ◌≡◌, refl, subst, ◌⊎◌, inl, inr, Option, List, [], ◌∷◌,
  keep, any, nat_eq, arith,
}
use booking_lumin_checkout.Base.Int.{ℤ}
use booking_lumin_checkout.Base.Result.{
  Result, ok, ◌>>=◌, ◌>>◌, throw_if, is_ok, throw_if-elim, >>=-elim, ok-injective,
}

pub data SubscriptionStatus : Type 0 where
  incomplete trialing active past_due canceled : SubscriptionStatus

abbrev pub subscription_transitions : SubscriptionStatus → List SubscriptionStatus
subscription_transitions SubscriptionStatus.incomplete =
    SubscriptionStatus.trialing ∷ SubscriptionStatus.active ∷ SubscriptionStatus.canceled ∷ []
subscription_transitions SubscriptionStatus.trialing =
    SubscriptionStatus.active ∷ SubscriptionStatus.past_due ∷ SubscriptionStatus.canceled ∷ []
subscription_transitions SubscriptionStatus.active =
    SubscriptionStatus.past_due ∷ SubscriptionStatus.canceled ∷ []
subscription_transitions SubscriptionStatus.past_due =
    SubscriptionStatus.active ∷ SubscriptionStatus.canceled ∷ []
subscription_transitions SubscriptionStatus.canceled = []

abbrev status_number : SubscriptionStatus → ℕ
status_number SubscriptionStatus.incomplete = 0
status_number SubscriptionStatus.trialing = 1
status_number SubscriptionStatus.active = 2
status_number SubscriptionStatus.past_due = 3
status_number SubscriptionStatus.canceled = 4

abbrev pub status_eq : SubscriptionStatus → SubscriptionStatus → Bool
status_eq a b = nat_eq (status_number a) (status_number b)

abbrev pub can_transition : SubscriptionStatus → SubscriptionStatus → Bool
can_transition from to = any (λ s. status_eq s to) (subscription_transitions from)

pub data SubscriptionError : Type 0 where
  illegal_transition invalid_addon invalid_plan_change : SubscriptionError

pub record Subscription : Type 0 where
  pub id : String
  pub tenant_id : String
  pub plan_key : String
  pub status : SubscriptionStatus
  pub current_period_start : String
  pub current_period_end : String
  pub trial_end : Option String
  pub cancel_at_period_end : Bool
  pub addon_keys : List String

pub data ProrationPolicy : Type 0 where
  no_proration prorate at_period_end : ProrationPolicy

pub data Direction : Type 0 where
  upgrade downgrade : Direction

pub record PlanChange : Type 0 where
  pub to_plan_key : String
  pub direction : Direction
  pub proration : ProrationPolicy
  pub proration_minor_units : Option ℤ

unfoldable pub transition :
    Subscription → SubscriptionStatus → Result SubscriptionError Subscription
transition sub to = do
  throw_if (not (can_transition sub.status to)) illegal_transition
  ok (record sub { status = to })

abbrev pub is_canceled : Subscription → Bool
is_canceled sub = status_eq sub.status SubscriptionStatus.canceled

-- The change that is returned is the one that was given, which the schema has accepted.
unfoldable pub change_plan :
    Subscription → PlanChange → List String → Result SubscriptionError (Subscription × PlanChange)
change_plan sub change allowed = do
  throw_if (is_canceled sub) invalid_plan_change
  ok (
    record sub {
      plan_key = change.to_plan_key;
      addon_keys = keep (λ k. any (λ a. a == k) allowed) sub.addon_keys;
    },
    change,
  )

unfoldable pub cancel_at_period_end : Subscription → Result SubscriptionError Subscription
cancel_at_period_end sub = do
  throw_if (is_canceled sub) illegal_transition
  ok (record sub { cancel_at_period_end = true })

unfoldable pub cancel_immediately : Subscription → String → Result SubscriptionError Subscription
unfolding transition
cancel_immediately sub as_of = do
  closed ← transition sub SubscriptionStatus.canceled
  ok (record closed { cancel_at_period_end = true; current_period_end = as_of })

unfoldable pub clear_scheduled_cancel : Subscription → Result SubscriptionError Subscription
clear_scheduled_cancel sub = do
  throw_if (is_canceled sub) illegal_transition
  ok (record sub { cancel_at_period_end = false })

-- An operation with its arguments.
pub data Operation : Type 0 where
  move : SubscriptionStatus → Operation
  change : PlanChange → List String → Operation
  schedule_cancel clear_cancel : Operation
  cancel_now : String → Operation

unfoldable pub operate : Operation → Subscription → Result SubscriptionError Subscription
unfolding transition change_plan cancel_at_period_end cancel_immediately clear_scheduled_cancel
operate (Operation.move to) sub = transition sub to
operate (Operation.change c allowed) sub = do changed ← change_plan sub c allowed; ok changed.0
operate Operation.schedule_cancel sub = cancel_at_period_end sub
operate Operation.clear_cancel sub = clear_scheduled_cancel sub
operate (Operation.cancel_now as_of) sub = cancel_immediately sub as_of

-- A subscription that is canceled is closed: every operation on it throws.
pub operate_canceled :
    (operation : Operation) (sub : Subscription)
    → sub.status ≡ SubscriptionStatus.canceled
    → is_ok (operate operation sub) ≡ false
unfolding operate transition change_plan cancel_at_period_end cancel_immediately
    clear_scheduled_cancel
operate_canceled (Operation.move to) sub h = rw h refl
operate_canceled (Operation.change c allowed) sub h = rw h refl
operate_canceled Operation.schedule_cancel sub h = rw h refl
operate_canceled Operation.clear_cancel sub h = rw h refl
operate_canceled (Operation.cancel_now as_of) sub h = rw h refl

abbrev Moved : Subscription → Subscription → Type 0
Moved sub next =
    (next.id ≡ sub.id)
    × (next.tenant_id ≡ sub.tenant_id)
    × ((next.status ≡ sub.status) ⊎ (can_transition sub.status next.status ≡ true))

-- No operation gives a subscription another id or tenant, and its status stays or moves by the table.
pub operate-moves :
    (operation : Operation) (sub : Subscription) {next : Subscription}
    → operate operation sub ≡ ok next
    → (next.id ≡ sub.id)
      × (next.tenant_id ≡ sub.tenant_id)
      × ((next.status ≡ sub.status) ⊎ (can_transition sub.status next.status ≡ true))
unfolding operate transition change_plan cancel_at_period_end cancel_immediately
    clear_scheduled_cancel
operate-moves (Operation.move to) sub h =
    throw_if-elim (not (can_transition sub.status to)) _ _ h
      λ legal e. subst (Moved sub) (ok-injective e) (refl, refl, inr (ground arith))
operate-moves (Operation.change c allowed) sub h =
    >>=-elim (change_plan sub c allowed) _ h λ changed made e.
      throw_if-elim (is_canceled sub) _ _ made λ _ same. subst (Moved sub) (ok-injective e) (
        subst (λ (x : Subscription × PlanChange). Moved sub x.0) (ok-injective same)
          (refl, refl, inl refl))
operate-moves Operation.schedule_cancel sub h =
    throw_if-elim (is_canceled sub) _ _ h
      λ _ e. subst (Moved sub) (ok-injective e) (refl, refl, inl refl)
operate-moves Operation.clear_cancel sub h =
    throw_if-elim (is_canceled sub) _ _ h
      λ _ e. subst (Moved sub) (ok-injective e) (refl, refl, inl refl)
operate-moves (Operation.cancel_now as_of) sub h =
    >>=-elim (transition sub SubscriptionStatus.canceled) _ h λ closed made e.
      throw_if-elim (not (can_transition sub.status SubscriptionStatus.canceled)) _ _ made
        λ legal same. subst (Moved sub) (ok-injective e) (
          subst
            (λ (x : Subscription).
              Moved sub (record x { cancel_at_period_end = true; current_period_end = as_of }))
            (ok-injective same) (refl, refl, inr (ground arith)))

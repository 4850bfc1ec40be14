-- ===== src/Billing/Entitlement.antt =====
-- packages/billing/src/entitlement.ts: what a subscription entitles to. A set is the list of what was
-- put into it.
use booking_lumin_checkout.Base.{
  String, Bool, true, false, not, ◌==◌, ◌≡◌, refl, sym, subst, List, [], ◌∷◌, keep, any, arith,
  Bool-cases, inl, inr, if◌then◌else◌, eq_iff,
}
use booking_lumin_checkout.Base.Result.{
  Result, ok, ◌>>=◌, ◌>>◌, throw_if, throw_if-elim, ok-injective,
}
use booking_lumin_checkout.Billing.Plans.{Plan}
use booking_lumin_checkout.Billing.Subscription.{
  SubscriptionStatus, Subscription, PlanChange, is_canceled, change_plan,
}

pub record Entitlements : Type 0 where
  pub features : List String
  pub active_addons : List String
  pub is_active : Bool

pub data PlanMismatch : Type 0 where
  plan_mismatch : (subscription plan : String) → PlanMismatch

abbrev pub has_access : SubscriptionStatus → Bool
has_access SubscriptionStatus.trialing = true
has_access SubscriptionStatus.active = true
has_access SubscriptionStatus.past_due = true
has_access _ = false

unfoldable pub entitlements : Subscription → Plan → Result PlanMismatch Entitlements
entitlements subscription plan = do
  throw_if (not (subscription.plan_key == plan.key)) (plan_mismatch subscription.plan_key plan.key)
  ok (
      if not (has_access subscription.status)
      then record { features = []; active_addons = []; is_active = false }
      else record {
        features = plan.features;
        active_addons = keep (λ k. any (λ a. a == k) plan.addon_keys) subscription.addon_keys;
        is_active = true;
      })

unfoldable pub has_feature : Subscription → Plan → String → Result PlanMismatch Bool
has_feature subscription plan feature = do
  e ← entitlements subscription plan
  ok (any (λ f. f == feature) e.features)

unfoldable pub has_addon : Subscription → Plan → String → Result PlanMismatch Bool
has_addon subscription plan addon = do
  e ← entitlements subscription plan
  ok (any (λ a. a == addon) e.active_addons)

keep-keep : (p : String → Bool) (xs : List String) → keep p (keep p xs) ≡ keep p xs
keep-keep p [] = refl
keep-keep p (x ∷ xs) = ground (arith, keep-keep p xs)

abbrev entitled : Subscription → Plan → List String → Entitlements
entitled sub plan addons =
    if has_access sub.status
    then record { features = plan.features; active_addons = addons; is_active = true }
    else record { features = []; active_addons = []; is_active = false }

abbrev kept : Subscription → Plan → List String
kept sub plan = keep (λ k. any (λ a. a == k) plan.addon_keys) sub.addon_keys

pruned :
    (sub : Subscription) (change : PlanChange) (plan : Plan)
    → plan.key ≡ change.to_plan_key
    → entitlements (record sub { plan_key = change.to_plan_key; addon_keys = kept sub plan }) plan
      ≡ ok (entitled sub plan (kept sub plan))
unfolding entitlements
pruned sub change plan same =
    let named : (change.to_plan_key == plan.key) ≡ true = (eq_iff _ _).1 (sym same) in
    elim (Bool-cases (has_access sub.status)) [
      | inl e ↦
          rw (named, e)
            (rw (keep-keep (λ k. any (λ a. a == k) plan.addon_keys) sub.addon_keys) refl)
      | inr e ↦ rw (named, e) refl
    ]

-- After a change to a plan that prunes by the plan's own add-ons, the new plan's entitlements exist,
-- and they are those of the status: with access, the plan's features and all add-ons that the
-- subscription kept, and without it nothing.
pub entitlements-change_plan :
    (sub : Subscription) (change : PlanChange) (plan : Plan) {next : Subscription}
    {done : PlanChange}
    → plan.key ≡ change.to_plan_key
    → change_plan sub change plan.addon_keys ≡ ok (next, done)
    → entitlements next plan
      ≡ ok (
          if has_access sub.status
          then record {
            features = plan.features;
            active_addons = next.addon_keys;
            is_active = true;
          }
          else record { features = []; active_addons = []; is_active = false })
unfolding entitlements change_plan
entitlements-change_plan sub change plan same h = throw_if-elim (is_canceled sub) _ _ h λ _ e.
    subst
      (λ (x : Subscription × PlanChange).
        entitlements x.0 plan ≡ ok (entitled sub plan x.0.addon_keys))
      (ok-injective e) (pruned sub change plan same)

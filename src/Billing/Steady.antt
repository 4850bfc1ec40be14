-- ===== src/Billing/Steady.antt =====
-- packages/billing/src/provider.ts: steps on one subscription, and what they keep of the others.
use booking_lumin_checkout.Base.{
  or_else, String, Bool, true, false, ◌==◌, ◌≡◌, refl, sym, subst, ap, ◌∙◌, inl, inr, Option, some,
  same_some, Bool-cases, Option-cases, eq_iff, if◌then◌else◌,
}
use booking_lumin_checkout.Base.Dict.{Dict, get, put, get-put}
use booking_lumin_checkout.Base.Result.{Result, ok, err, ◌>>=◌, is_ok, ok-injective, >>=-elim}
use booking_lumin_checkout.Billing.Subscription.{
  SubscriptionStatus, Subscription, SubscriptionError, Operation, operate, operate_canceled,
  operate-moves, transition, cancel_at_period_end, cancel_immediately, clear_scheduled_cancel,
  status_eq,
}
use booking_lumin_checkout.Billing.Provider.{
  BillingState, BillingFault, lifted, must, moved, updated, activated,
}

abbrev pub IsCanceled : Subscription → Type 0
IsCanceled sub = sub.status ≡ SubscriptionStatus.canceled

-- A step on a subscription keeps its id, and gives a canceled one as it was, if anything.
abbrev pub Steady : (Subscription → Result BillingFault Subscription) → Type 0
Steady f = (cur r : Subscription) → f cur ≡ ok r → (r.id ≡ cur.id) × (IsCanceled cur → r ≡ cur)

-- Every subscription stands under its own id.
abbrev pub IsKeyed : Dict Subscription → Type 0
IsKeyed m = (i : String) (sub : Subscription) → get m i ≡ some sub → sub.id ≡ i

pub lifted-ok :
    (m : Result SubscriptionError Subscription) {r : Subscription}
    → lifted BillingFault.subscription m ≡ ok r
    → m ≡ ok r
lifted-ok (ok a) h = let e : a ≡ _ = ok-injective h in ap (λ a. ok a) e
lifted-ok (err e) h = absurd (cc)

pub Steady-operate :
    (op : Operation) → Steady (λ cur. lifted BillingFault.subscription (operate op cur))
Steady-operate op cur r h =
    let e = lifted-ok (operate op cur) h in
    (
      (operate-moves op cur e).0,
      λ c. let n = operate_canceled op cur c in absurd (let k = rw e at n in cc),
    )

module _ (id : String) (sub : Subscription) (closed : IsCanceled sub) where
  abbrev pub Keeps : Dict Subscription → Dict Subscription → Type 0
  Keeps m m' = IsKeyed m → get m id ≡ some sub → IsKeyed m' × (get m' id ≡ some sub)

  IsKeyed-put : (m : Dict Subscription) (r : Subscription) → IsKeyed m → IsKeyed (put m r.id r)
  IsKeyed-put m r keyed i x h = elim (Bool-cases (r.id == i)) [
    | inl t ↦
        let same = same_some (rw (get-put m r.id i r, t) at h) in
        subst (λ (x : Subscription). x.id ≡ i) same ((eq_iff r.id i).0 t)
    | inr f ↦ keyed i x (rw (get-put m r.id i r, f) at h)
  ]

  put-Keeps :
      (m : Dict Subscription) (i : String) (cur r : Subscription)
      → get m i ≡ some cur
      → (r.id ≡ cur.id) × (IsCanceled cur → r ≡ cur)
      → Keeps m (put m r.id r)
  put-Keeps m i cur r here (same, stay) keyed there = (
    IsKeyed-put m r keyed,
    elim (Bool-cases (r.id == id)) [
      | inl t ↦
          let i' : i ≡ id = sym (keyed i cur here) ∙ (sym same ∙ (eq_iff r.id id).0 t) in
          let cur' : cur ≡ sub = same_some (sym here ∙ (ap (get m) i' ∙ there)) in
          let c : IsCanceled cur = subst IsCanceled (sym cur') closed in
          rw (get-put m r.id id r, t) (ap (λ x. some x) (stay c ∙ cur'))
      | inr f ↦ rw (get-put m r.id id r, f) there
    ],
  )

  module _ (s : BillingState) where
    pub found-Keeps :
        (i : String) (cur : Subscription) (r : Result BillingFault Subscription)
        → get s.subs i ≡ some cur
        → ((x : Subscription) → r ≡ ok x → (x.id ≡ cur.id) × (IsCanceled cur → x ≡ cur))
        → Keeps s.subs (updated s r).0.subs
    found-Keeps i cur (ok x) here steady keyed there =
        put-Keeps s.subs i cur x here (steady x refl) keyed there
    found-Keeps i cur (err e) here steady keyed there = (keyed, there)

    pub updated-Keeps :
        (i : String) (f : Subscription → Result BillingFault Subscription)
        → Steady f
        → Keeps s.subs (updated s (must s i >>= f)).0.subs
    updated-Keeps i f steady keyed there = elim (Option-cases (get s.subs i)) [
      | inl n ↦ rw n (keyed, there)
      | inr (cur, here) ↦ rw here (found-Keeps i cur (f cur) here (steady cur) keyed there)
    ]

pub lifted-fst :
    {B : Type 0} (m : Result SubscriptionError (Subscription × B)) {r : Subscription}
    → (lifted BillingFault.subscription m >>= λ x. ok x.0) ≡ ok r
    → lifted BillingFault.subscription (m >>= λ x. ok x.0) ≡ ok r
lifted-fst (ok x) h = h
lifted-fst (err e) h = absurd (cc)

pub Steady-moved : (to : SubscriptionStatus) → Steady (λ cur. moved cur to)
unfolding operate
Steady-moved to = Steady-operate (Operation.move to)

pub Steady-cancel :
    (immediately : Bool) (as_of : Option String)
    → Steady (λ cur. lifted BillingFault.subscription (
        if immediately
        then cancel_immediately cur (or_else as_of cur.current_period_end)
        else cancel_at_period_end cur))
unfolding operate
Steady-cancel true as_of cur r h = Steady-operate (Operation.cancel_now _) cur r h
Steady-cancel false as_of cur r h = Steady-operate Operation.schedule_cancel cur r h

pub Steady-if :
    (test : Subscription → Bool) (f g : Subscription → Result BillingFault Subscription)
    → Steady f
    → Steady g
    → Steady (λ cur. if test cur then f cur else g cur)
Steady-if test f g hf hg cur r h = elim (Bool-cases (test cur)) [
  | inl t ↦ hf cur r (rw t at h)
  | inr n ↦ hg cur r (rw n at h)
]

pub Steady-same : Steady (λ cur. ok cur)
Steady-same cur r h =
    let same = ok-injective h in (ap (λ (s : Subscription). s.id) (sym same), λ _. sym same)

pub Steady-clear : Steady (λ cur. lifted BillingFault.subscription (clear_scheduled_cancel cur))
unfolding operate
Steady-clear = Steady-operate Operation.clear_cancel

pub Steady-activated : Steady activated
Steady-activated =
    Steady-if (λ cur. status_eq cur.status SubscriptionStatus.active) (λ cur. ok cur)
      (λ cur. moved cur SubscriptionStatus.active) Steady-same
      (Steady-moved SubscriptionStatus.active)

activated_canceled : (cur : Subscription) → IsCanceled cur → is_ok (activated cur) ≡ false
unfolding transition
activated_canceled cur c = rw c refl

-- A renewal has another period, and no canceled subscription is renewed.
pub Steady-renewal :
    (f : Subscription → Result BillingFault Subscription)
    → ((base r : Subscription) → f base ≡ ok r → r.id ≡ base.id)
    → Steady (λ cur. activated cur >>= f)
Steady-renewal f same cur r h = >>=-elim (activated cur) _ h λ base e g. (
  same base r g ∙ (Steady-activated cur base e).0,
  λ c. absurd (let n = activated_canceled cur c in let k = rw e at n in cc),
)

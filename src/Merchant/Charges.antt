-- ===== src/Merchant/Charges.antt =====
-- packages/payments/src/mocks.ts: the amounts of the charges that the provider holds, and what a
-- change of one charge or a new one keeps.
use booking_lumin_checkout.Base.{
  ℕ, String, true, ◌==◌, ◌≡◌, refl, subst, inl, inr, Option, none, some, is_some, same_some,
  Bool-cases, eq_iff,
}
use booking_lumin_checkout.Base.Int.{ℤ, pos, ◌≤ℤ◌, ◌<ℤ◌}
use booking_lumin_checkout.Base.Dict.{Dict, get, put, get-put}
use booking_lumin_checkout.Base.Result.{ok, ok-injective}
use booking_lumin_checkout.Merchant.{
  MerchantPaymentState, MerchantCharge, ChargeState, ProviderState, found, with_charge, no_charges,
}

-- The amounts that a state of a charge allows. No mock makes a charge that waits for an action, fails
-- or is canceled.
unfoldable pub Amounts : MerchantPaymentState → (amount captured refunded : ℤ) → Type 0
Amounts MerchantPaymentState.authorized a c r = (pos 0 <ℤ a) × (c ≡ pos 0) × (r ≡ pos 0)
Amounts MerchantPaymentState.captured a c r = (pos 0 <ℤ c) × (c ≤ℤ a) × (r ≡ pos 0)
Amounts MerchantPaymentState.partially_refunded a c r = (pos 0 <ℤ r) × (r <ℤ c) × (c ≤ℤ a)
Amounts MerchantPaymentState.refunded a c r = (r ≡ c) × (pos 0 <ℤ c) × (c ≤ℤ a)
Amounts _ a c r = ⊥

abbrev pub IsBalanced : MerchantCharge → Type 0
IsBalanced c =
    Amounts c.state c.amount.amount c.captured.amount c.refunded.amount
    × (c.captured.currency ≡ c.amount.currency)
    × (c.refunded.currency ≡ c.amount.currency)

abbrev pub IsEntry : String → String → ChargeState → Type 0
IsEntry name id c = (c.charge.charge_id ≡ id) × (c.charge.provider ≡ name) × IsBalanced c.charge

-- The charges are balanced, and every key leads to one.
pub record IsLedger (name : String) (s : ProviderState) : Type 0 where
  pub entries : (id : String) (c : ChargeState) → get s.charges id ≡ some c → IsEntry name id c
  pub keyed :
      (k id : String) → get s.by_idempotency_key k ≡ some id → is_some (get s.charges id) ≡ true

-- Keys keep their charges.
abbrev pub Grows : ProviderState → ProviderState → Type 0
Grows s s' =
    (k id : String) → get s.by_idempotency_key k ≡ some id → get s'.by_idempotency_key k ≡ some id

abbrev pub Preserves : String → ProviderState → ProviderState → Type 0
Preserves name s s' = (IsLedger name s → IsLedger name s') × Grows s s'

pub found-some {ℓ} : {A : Type ℓ} (o : Option A) {a : A} → found o ≡ ok a → o ≡ some a
found-some none h = absurd (cc)
found-some (some b) h = let e = ok-injective h in cc

module _ (name : String) where
  entries-put :
      (m : Dict ChargeState) (id : String) (v : ChargeState)
      → ((i : String) (c : ChargeState) → get m i ≡ some c → IsEntry name i c)
      → IsEntry name id v
      → (i : String) (c : ChargeState) → get (put m id v) i ≡ some c
      → IsEntry name i c
  entries-put m id v old e i c h = elim (Bool-cases (id == i)) [
    | inl t ↦
        let same : v ≡ c = same_some (rw (get-put m id i v, t) at h) in
        subst (λ c. IsEntry name i c) same (subst (λ i. IsEntry name i v) ((eq_iff id i).0 t) e)
    | inr n ↦ old i c (rw (get-put m id i v, n) at h)
  ]

  has-put :
      (m : Dict ChargeState) (id : String) (v : ChargeState) (i : String)
      → is_some (get m i) ≡ true
      → is_some (get (put m id v) i) ≡ true
  has-put m id v i h = elim (Bool-cases (id == i)) [
    | inl t ↦ rw (get-put m id i v, t) refl
    | inr n ↦ rw (get-put m id i v, n) h
  ]

  -- A charge that is there is replaced by one that is balanced.
  pub Preserves-with_charge :
      (s : ProviderState) (id : String) (c : ChargeState) (charge : MerchantCharge)
      → (IsLedger name s → IsEntry name id (record c { charge = charge }))
      → Preserves name s (with_charge s id c charge)
  Preserves-with_charge s id c charge e = (
    λ l. record {
      entries = entries-put s.charges id _ l.entries (e l);
      keyed = λ k i h. has-put s.charges id _ i (l.keyed k i h);
    },
    λ k i h. h,
  )

  has-put_self :
      (m : Dict ChargeState) (id : String) (v : ChargeState) → is_some (get (put m id v) id) ≡ true
  has-put_self m id v =
      let t : (id == id) ≡ true = (eq_iff id id).1 refl in rw (get-put m id id v, t) refl

  -- A charge is added under a key that was not used.
  pub Preserves-created :
      (s : ProviderState) (id key : String) (v : ChargeState) (n : ℕ)
      → get s.by_idempotency_key key ≡ none
      → IsEntry name id v
      → Preserves name s (record s {
        counter = n;
        charges = put s.charges id v;
        by_idempotency_key = put s.by_idempotency_key key id;
      })
  Preserves-created s id key v n fresh e = (
    λ l. record {
      entries = entries-put s.charges id v l.entries e;
      keyed = λ k i h. elim (Bool-cases (key == k)) [
        | inl t ↦
            let same : id ≡ i = same_some (rw (get-put s.by_idempotency_key key k id, t) at h) in
            subst (λ i. is_some (get (put s.charges id v) i) ≡ true) same
              (has-put_self s.charges id v)
        | inr f ↦
            has-put s.charges id v i
              (l.keyed k i (rw (get-put s.by_idempotency_key key k id, f) at h))
      ];
    },
    λ k i h. elim (Bool-cases (key == k)) [
      | inl t ↦
          let gone : get s.by_idempotency_key k ≡ none =
            subst (λ k. get s.by_idempotency_key k ≡ none) ((eq_iff key k).0 t) fresh in
          absurd (cc)
      | inr f ↦ rw (get-put s.by_idempotency_key key k id, f) h
    ],
  )

  pub no_charges-IsLedger : IsLedger name no_charges
  unfolding get
  no_charges-IsLedger = record { entries = λ i c h. absurd (cc); keyed = λ k i h. absurd (cc) }

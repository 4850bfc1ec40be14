-- ===== src/Merchant/Amounts.antt =====
-- packages/payments/src/mocks.ts: the amounts of a charge before and after a change of it.
use booking_lumin_checkout.Base.{
  String, Bool, true, false, not, ◌==◌, ◌≡◌, ◌⊎◌, refl, inl, inr, arith, Bool-cases, if◌then◌else◌,
  eq_iff,
}
use booking_lumin_checkout.Base.Int.{
  ℤ, pos, ◌+ℤ◌, ◌≤ℤ◌, ◌<ℤ◌, leb_ℤ, ltb_ℤ, eq_ℤ, eq_ℤ_iff, +ℤ_parts,
}
use booking_lumin_checkout.Merchant.{
  MerchantPaymentState, Setup, CreateChargeInput, charge_from, not_positive, can_capture,
  is_captured, is_refundable,
}
use booking_lumin_checkout.Merchant.Charges.{Amounts, IsEntry}

-- What stays in a charge when an operation changes its amounts, and the amounts that it had.
pub captures :
    (state : MerchantPaymentState) (a c r taken : ℤ)
    → can_capture state ≡ true
    → leb_ℤ taken (pos 0) ≡ false
    → ltb_ℤ a taken ≡ false
    → Amounts state a c r
    → Amounts MerchantPaymentState.captured a taken r
unfolding Amounts
captures MerchantPaymentState.authorized a c r taken h p q (x, y, z) =
    (ground arith, ground arith, z)
captures _ a c r taken h p q m = absurd (cc)

pub refunds :
    (state : MerchantPaymentState) (a c r : ℤ)
    → is_captured state ≡ true
    → Amounts state a c r
    → Amounts MerchantPaymentState.refunded a c c
unfolding Amounts
refunds MerchantPaymentState.captured a c r h (x, y, z) = (refl, x, y)
refunds _ a c r h m = absurd (cc)

pub sum_positive : (r m : ℤ) → leb_ℤ m (pos 0) ≡ false → pos 0 ≤ℤ r → pos 0 <ℤ (r +ℤ m)
sum_positive r m h k = let e = +ℤ_parts r m in ground arith

pub refunded_amounts :
    (a c sum : ℤ)
    → pos 0 <ℤ sum
    → ltb_ℤ c sum ≡ false
    → c ≤ℤ a
    → Amounts
        (if eq_ℤ sum c
          then MerchantPaymentState.refunded
          else MerchantPaymentState.partially_refunded)
        a
        c
        sum
unfolding Amounts
refunded_amounts a c sum p q x = elim (Bool-cases (eq_ℤ sum c)) [
  | inl e ↦ rw e ((eq_ℤ_iff sum c).0 e, ground arith, x)
  | inr e ↦ rw e (p, ground arith, x)
]

pub refunds_part :
    (state : MerchantPaymentState) (a c r m : ℤ)
    → is_refundable state ≡ true
    → leb_ℤ m (pos 0) ≡ false
    → ltb_ℤ c (r +ℤ m) ≡ false
    → Amounts state a c r
    → Amounts
        (if eq_ℤ (r +ℤ m) c
          then MerchantPaymentState.refunded
          else MerchantPaymentState.partially_refunded)
        a
        c
        (r +ℤ m)
unfolding Amounts
refunds_part MerchantPaymentState.captured a c r m h p q (x, y, z) =
    refunded_amounts a c _ (sum_positive r m p (rw z (omega arith))) q y
refunds_part MerchantPaymentState.partially_refunded a c r m h p q (x, y, z) =
    refunded_amounts a c _ (sum_positive r m p (omega arith)) q z
refunds_part _ a c r m h p q x = absurd (cc)

pub kept_currency : (a b : String) → not (a == b) ≡ false → a ≡ b
kept_currency a b h = ground (arith, eq_iff a b)

pub is_true : (b : Bool) → not b ≡ false → b ≡ true
is_true b h = ground arith

pub new_amounts :
    (a : ℤ) (state : MerchantPaymentState)
    → leb_ℤ a (pos 0) ≡ false
    → (can_capture state ≡ true → Amounts state a (pos 0) (pos 0))
      × (is_captured state ≡ true → Amounts state a a (pos 0))
unfolding Amounts
new_amounts a MerchantPaymentState.authorized h =
    (λ _. (ground arith, refl, refl), λ k. absurd (cc))
new_amounts a MerchantPaymentState.captured h =
    (λ k. absurd (cc), λ _. (ground arith, ground arith, refl))
new_amounts a _ h = (λ k. absurd (cc), λ k. absurd (cc))

pub new-IsEntry :
    (p : Setup) (input : CreateChargeInput) (state : MerchantPaymentState) (id : String)
    → not_positive input.amount ≡ false
    → ((can_capture state ≡ true) × (is_captured state ≡ false)) ⊎ (is_captured state ≡ true)
    → IsEntry p.provider_name id (record {
      charge = charge_from p input state id;
      tenant_id = input.tenant_id;
      reference = input.reference;
    })
new-IsEntry p input state id positive k =
    let (a, b) = new_amounts input.amount.amount state positive in
    elim k [
      | inl (t, n) ↦ rw n (refl, refl, (a t, refl, refl))
      | inr t ↦ rw t (refl, refl, (b t, refl, refl))
    ]

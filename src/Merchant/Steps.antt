-- ===== src/Merchant/Steps.antt =====
-- packages/payments/src/mocks.ts: what each operation of a provider keeps.
use booking_lumin_checkout.Base.{
  String, true, false, not, ◌≡◌, ◌⊎◌, refl, subst, ap, inl, inr, Option, none, some, or_else,
}
use booking_lumin_checkout.Base.Int.{◌+ℤ◌, ltb_ℤ}
use booking_lumin_checkout.Base.Dict.{get}
use booking_lumin_checkout.Base.Result.{ok, ok-injective, >>=-elim, throw_if-elim}
use booking_lumin_checkout.Contracts.Money.{Money}
use booking_lumin_checkout.Routing.{serves_method, serves_country}
use booking_lumin_checkout.Merchant.{
  MerchantPaymentState, MerchantCharge, ProviderState, Setup, CreateChargeInput, SaveMethodInput,
  SavedMethodRef, MarketplaceAccountRef, MarketplaceAccountInput, found, must_get, new_charge,
  not_positive, assert_serves, charge_once, create_charge, authorize, capture, refund,
  partial_refund, save_method, charge_saved_method, onboard_marketplace_account, can_capture,
  is_captured, is_refundable, currency_matches,
}
use booking_lumin_checkout.Merchant.Charges.{
  Preserves, found-some, Preserves-with_charge, Preserves-created,
}
use booking_lumin_checkout.Merchant.Amounts.{
  captures, refunds, refunds_part, kept_currency, is_true, new-IsEntry,
}

module _ (p : Setup) where
  abbrev Kept : ProviderState → ProviderState → Type 0
  Kept s s' = Preserves p.provider_name s s'

  pub same_state : (s : ProviderState) → Kept s s
  same_state s = (λ l. l, λ k i h. h)

  pub Preserves-charge_once :
      (input : CreateChargeInput) (state : MerchantPaymentState) (s : ProviderState)
      (used : Option String)
      → get s.by_idempotency_key input.idempotency_key ≡ used
      → ((can_capture state ≡ true) × (is_captured state ≡ false)) ⊎ (is_captured state ≡ true)
      → {c : MerchantCharge} {s' : ProviderState} → charge_once p input state s used ≡ ok (c, s')
      → Kept s s'
  unfolding charge_once new_charge
  Preserves-charge_once input state s (some id) e k h = >>=-elim (must_get s id) _ h λ c f g.
      let same : s ≡ _ = ap (λ x. x.1) (ok-injective g) in
      subst (λ s'. Kept s s') same (same_state s)
  Preserves-charge_once input state s none e k h =
      >>=-elim (assert_serves p input.country input.amount.currency input.method) _ h λ u f g.
        throw_if-elim (not_positive input.amount) _ _ g λ positive g'.
          let same = ap (λ x. x.1) (ok-injective g') in
          let entry = new-IsEntry p input state _ positive k in
          subst (λ s'. Kept s s') same
            (Preserves-created p.provider_name s _ input.idempotency_key _ _ e entry)

  pub Preserves-capture :
      (id : String) (amount : Option Money) (s : ProviderState) {c : MerchantCharge}
      {s' : ProviderState}
      → capture p id amount s ≡ ok (c, s')
      → Kept s s'
  unfolding capture
  Preserves-capture id amount s h =
      throw_if-elim (not p.capability.supports_auth_capture) _ _ h λ _ h1.
        >>=-elim (must_get s id) _ h1 λ c f h2.
          let taken = or_else amount c.charge.amount in
          throw_if-elim (not (can_capture c.charge.state)) _ _ h2 λ held h3.
            throw_if-elim (not (currency_matches c.charge taken)) _ _ h3 λ currency h4.
              throw_if-elim (not_positive taken) _ _ h4 λ positive h5.
                throw_if-elim (ltb_ℤ c.charge.amount.amount taken.amount) _ _ h5 λ fits h6.
                  let same = ap (λ x. x.1) (ok-injective h6) in
                  subst (λ s'. Kept s s') same
                    (Preserves-with_charge p.provider_name s id c _ λ l.
                      let (i, n, (b, e, r)) = l.entries id c (found-some _ f) in
                      (
                        i,
                        n,
                        (
                          captures c.charge.state _ _ _ taken.amount (is_true _ held) positive fits
                              b,
                          kept_currency taken.currency _ currency,
                          r,
                        ),
                      ))

  pub Preserves-refund :
      (id : String) (s : ProviderState) {c : MerchantCharge} {s' : ProviderState}
      → refund p id s ≡ ok (c, s')
      → Kept s s'
  unfolding refund
  Preserves-refund id s h = >>=-elim (must_get s id) _ h λ c f h1.
      throw_if-elim (not (is_captured c.charge.state)) _ _ h1 λ held h2.
        let same = ap (λ x. x.1) (ok-injective h2) in
        subst (λ s'. Kept s s') same
          (Preserves-with_charge p.provider_name s id c _ λ l.
            let (i, n, (b, e, r)) = l.entries id c (found-some _ f) in
            (i, n, (refunds c.charge.state _ _ _ (is_true _ held) b, e, e)))

  pub Preserves-partial_refund :
      (id : String) (amount : Money) (s : ProviderState) {c : MerchantCharge} {s' : ProviderState}
      → partial_refund p id amount s ≡ ok (c, s')
      → Kept s s'
  unfolding partial_refund
  Preserves-partial_refund id amount s h =
      throw_if-elim (not p.capability.supports_partial_refund) _ _ h λ _ h1.
        >>=-elim (must_get s id) _ h1 λ c f h2.
          let sum = c.charge.refunded.amount +ℤ amount.amount in
          throw_if-elim (not (currency_matches c.charge amount)) _ _ h2 λ currency h3.
            throw_if-elim (not_positive amount) _ _ h3 λ positive h4.
              throw_if-elim (not (is_refundable c.charge.state)) _ _ h4 λ held h5.
                throw_if-elim (ltb_ℤ c.charge.captured.amount sum) _ _ h5 λ fits h6.
                  let same = ap (λ x. x.1) (ok-injective h6) in
                  subst (λ s'. Kept s s') same
                    (Preserves-with_charge p.provider_name s id c _ λ l.
                      let (i, n, (b, e, r)) = l.entries id c (found-some _ f) in
                      (
                        i,
                        n,
                        (
                          refunds_part c.charge.state _ _ c.charge.refunded.amount amount.amount
                              (is_true _ held) positive fits b,
                          e,
                          refl,
                        ),
                      ))

  pub Preserves-create_charge :
      (input : CreateChargeInput) (s : ProviderState) {c : MerchantCharge} {s' : ProviderState}
      → create_charge p input s ≡ ok (c, s')
      → Kept s s'
  unfolding create_charge
  Preserves-create_charge input s h =
      Preserves-charge_once input MerchantPaymentState.captured s _ refl (inr refl) h

  pub Preserves-authorize :
      (input : CreateChargeInput) (s : ProviderState) {c : MerchantCharge} {s' : ProviderState}
      → authorize p input s ≡ ok (c, s')
      → Kept s s'
  unfolding authorize
  Preserves-authorize input s h =
      throw_if-elim (not p.capability.supports_auth_capture) _ _ h λ _ h1.
        Preserves-charge_once input MerchantPaymentState.authorized s _ refl (inl (refl, refl)) h1

  pub Preserves-charge_saved_method :
      (id : String) (input : CreateChargeInput) (s : ProviderState) {c : MerchantCharge}
      {s' : ProviderState}
      → charge_saved_method p id input s ≡ ok (c, s')
      → Kept s s'
  unfolding charge_saved_method
  Preserves-charge_saved_method id input s h =
      throw_if-elim (not p.capability.supports_saved_methods) _ _ h λ _ h1.
        >>=-elim (found (get s.saved_methods id)) _ h1 λ saved _ h2.
          Preserves-charge_once (record input { method = saved.method })
            MerchantPaymentState.captured s _ refl (inr refl) h2

  pub Preserves-save_method :
      (input : SaveMethodInput) (s : ProviderState) {r : SavedMethodRef} {s' : ProviderState}
      → save_method p input s ≡ ok (r, s')
      → Kept s s'
  unfolding save_method
  Preserves-save_method input s h =
      throw_if-elim (not p.capability.supports_saved_methods) _ _ h λ _ h1.
        throw_if-elim (not (serves_method p.capability input.method)) _ _ h1 λ _ h2.
          subst (λ s'. Kept s s') (ap (λ x. x.1) (ok-injective h2))
            (λ l. record { entries = l.entries; keyed = l.keyed }, λ k i e. e)

  pub Preserves-onboard :
      (input : MarketplaceAccountInput) (s : ProviderState) {r : MarketplaceAccountRef}
      {s' : ProviderState}
      → onboard_marketplace_account p input s ≡ ok (r, s')
      → Kept s s'
  unfolding onboard_marketplace_account
  Preserves-onboard input s h = throw_if-elim (not p.capability.supports_marketplace) _ _ h λ _ h1.
      throw_if-elim (not (serves_country p.capability input.country)) _ _ h1 λ _ h2.
        subst (λ s'. Kept s s') (ap (λ x. x.1) (ok-injective h2))
          (λ l. record { entries = l.entries; keyed = l.keyed }, λ k i e. e)

-- ===== src/Merchant/Retries.antt =====
-- packages/payments/src/mocks.ts: what a retry with the same idempotency key answers.
use booking_lumin_checkout.Base.{
  String, ◌≡◌, refl, subst, inl, inr, Option, none, some, List, Option-cases,
}
use booking_lumin_checkout.Base.Dict.{get, get-put_self}
use booking_lumin_checkout.Base.Result.{ok, ok-injective, >>=-elim, throw_if-elim}
use booking_lumin_checkout.Merchant.{
  MerchantPaymentState, MerchantCharge, ProviderState, Setup, CreateChargeInput, must_get,
  not_positive, assert_serves, new_charge, charge_once, create_charge, no_charges,
}
use booking_lumin_checkout.Merchant.Charges.{IsLedger, found-some, no_charges-IsLedger}
use booking_lumin_checkout.Merchant.Steps.{Preserves-create_charge}
use booking_lumin_checkout.Merchant.Runs.{Call, run, Preserves-run}

module _ (p : Setup) where
  -- A charge that is answered stands under its key.
  charge_once-keyed :
      (input : CreateChargeInput) (state : MerchantPaymentState) (s : ProviderState)
      (used : Option String)
      → IsLedger p.provider_name s
      → get s.by_idempotency_key input.idempotency_key ≡ used
      → {c : MerchantCharge} {s' : ProviderState} → charge_once p input state s used ≡ ok (c, s')
      → get s'.by_idempotency_key input.idempotency_key ≡ some c.charge_id
  unfolding charge_once new_charge
  charge_once-keyed input state s (some id) l e h = >>=-elim (must_get s id) _ h λ c f g.
      let same = (l.entries id c (found-some _ f)).0 in
      subst
        (λ (x : MerchantCharge × ProviderState).
          get x.1.by_idempotency_key input.idempotency_key ≡ some x.0.charge_id)
        (ok-injective g) (rw (e, same) refl)
  charge_once-keyed input state s none l e h =
      >>=-elim (assert_serves p input.country input.amount.currency input.method) _ h λ u f g.
        throw_if-elim (not_positive input.amount) _ _ g λ positive g'.
          subst
            (λ (x : MerchantCharge × ProviderState).
              get x.1.by_idempotency_key input.idempotency_key ≡ some x.0.charge_id)
            (ok-injective g') (get-put_self s.by_idempotency_key input.idempotency_key _)

  create_charge-stands :
      (input : CreateChargeInput) (s : ProviderState)
      → IsLedger p.provider_name s
      → {c : MerchantCharge} {s' : ProviderState} → create_charge p input s ≡ ok (c, s')
      → get s'.by_idempotency_key input.idempotency_key ≡ some c.charge_id
  unfolding create_charge
  create_charge-stands input s l h =
      charge_once-keyed input MerchantPaymentState.captured s _ l refl h

  -- A key whose charge is there answers it and changes nothing.
  create_charge-keyed :
      (input : CreateChargeInput) (s : ProviderState) (id : String)
      → IsLedger p.provider_name s
      → get s.by_idempotency_key input.idempotency_key ≡ some id
      → (c : MerchantCharge) × (create_charge p input s ≡ ok (c, s)) × (c.charge_id ≡ id)
  unfolding create_charge charge_once
  create_charge-keyed input s id l e = elim (Option-cases (get s.charges id)) [
    | inl none' ↦ absurd (let k = l.keyed _ id e in let k' = rw none' at k in cc)
    | inr (v, here) ↦ (v.charge, rw (e, here) refl, (l.entries id v here).0)
  ]

  -- After `createCharge` returned a charge to a caller of a provider in use, a later `createCharge` with
  -- the same idempotency key returns a charge with the same id, in whatever state it is by then, and
  -- changes nothing, whatever the rest of its input is and whichever calls came in between.
  pub create_charge-retry :
      (before between : List Call) (input again : CreateChargeInput) {c : MerchantCharge}
      {s : ProviderState}
      → create_charge p input (run p before no_charges) ≡ ok (c, s)
      → again.idempotency_key ≡ input.idempotency_key
      → (c' : MerchantCharge) × (create_charge p again (run p between s) ≡ ok (c', run p between s))
        × (c'.charge_id ≡ c.charge_id)
  create_charge-retry before between input again {c} {s} h same =
      let (ledger, _) = Preserves-run p before no_charges in
      let old = ledger (no_charges-IsLedger p.provider_name) in
      let (next, _) = Preserves-create_charge p input (run p before no_charges) h in
      let (later, grows) = Preserves-run p between s in
      let key = create_charge-stands input (run p before no_charges) old h in
      create_charge-keyed again (run p between s) c.charge_id (later (next old))
        (rw same (grows _ _ key))

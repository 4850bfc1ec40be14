-- ===== src/Merchant/Runs.antt =====
-- packages/payments/src/mocks.ts: runs of a provider's operations.
use booking_lumin_checkout.Base.{
  String, ◌≡◌, refl, subst, inl, inr, Option, some, List, [], ◌∷◌, same_some, Option-cases,
}
use booking_lumin_checkout.Base.Dict.{get}
use booking_lumin_checkout.Base.Result.{Result, ok, err}
use booking_lumin_checkout.Contracts.Money.{Money}
use booking_lumin_checkout.Merchant.{
  MerchantCharge, ProviderState, PaymentFault, Setup, CreateChargeInput, SaveMethodInput,
  MarketplaceAccountInput, no_charges, create_charge, authorize, capture, refund, partial_refund,
  get_charge, save_method, charge_saved_method, onboard_marketplace_account,
}
use booking_lumin_checkout.Merchant.Charges.{IsBalanced, Preserves, no_charges-IsLedger}
use booking_lumin_checkout.Merchant.Steps.{
  same_state, Preserves-create_charge, Preserves-authorize, Preserves-capture, Preserves-refund,
  Preserves-partial_refund, Preserves-save_method, Preserves-charge_saved_method, Preserves-onboard,
}

-- A call of an operation that may change the state.
pub data Call : Type 0 where
  create : CreateChargeInput → Call
  hold : CreateChargeInput → Call
  take : (id : String) → Option Money → Call
  give_back : (id : String) → Call
  give_part : (id : String) → Money → Call
  save : SaveMethodInput → Call
  create_saved : (id : String) → CreateChargeInput → Call
  onboard : MarketplaceAccountInput → Call

-- The state after an operation: the old one, where it throws.
abbrev pub settled {ℓ} :
    {A : Type ℓ} → ProviderState → Result PaymentFault (A × ProviderState) → ProviderState
settled s (ok (_, s')) = s'
settled s (err _) = s

unfoldable pub after : Setup → Call → ProviderState → ProviderState
unfolding create_charge authorize capture refund partial_refund save_method charge_saved_method
    onboard_marketplace_account
after p (create input) s = settled s (create_charge p input s)
after p (hold input) s = settled s (authorize p input s)
after p (take id amount) s = settled s (capture p id amount s)
after p (give_back id) s = settled s (refund p id s)
after p (give_part id amount) s = settled s (partial_refund p id amount s)
after p (save input) s = settled s (save_method p input s)
after p (create_saved id input) s = settled s (charge_saved_method p id input s)
after p (onboard input) s = settled s (onboard_marketplace_account p input s)

unfoldable pub run : Setup → List Call → ProviderState → ProviderState
unfolding after
run p [] s = s
run p (c ∷ cs) s = run p cs (after p c s)

module _ (p : Setup) where
  Preserves-settled {ℓ} :
      {A : Type ℓ} (s : ProviderState) (r : Result PaymentFault (A × ProviderState))
      → ((a : A) (s' : ProviderState) → r ≡ ok (a, s') → Preserves p.provider_name s s')
      → Preserves p.provider_name s (settled s r)
  Preserves-settled s (ok (a, s')) h = h a s' refl
  Preserves-settled s (err e) h = same_state p s

  Preserves-after : (c : Call) (s : ProviderState) → Preserves p.provider_name s (after p c s)
  unfolding after
  Preserves-after (create input) s =
      Preserves-settled s _ λ _ _ e. Preserves-create_charge p input s e
  Preserves-after (hold input) s = Preserves-settled s _ λ _ _ e. Preserves-authorize p input s e
  Preserves-after (take id amount) s =
      Preserves-settled s _ λ _ _ e. Preserves-capture p id amount s e
  Preserves-after (give_back id) s = Preserves-settled s _ λ _ _ e. Preserves-refund p id s e
  Preserves-after (give_part id amount) s =
      Preserves-settled s _ λ _ _ e. Preserves-partial_refund p id amount s e
  Preserves-after (save input) s = Preserves-settled s _ λ _ _ e. Preserves-save_method p input s e
  Preserves-after (create_saved id input) s =
      Preserves-settled s _ λ _ _ e. Preserves-charge_saved_method p id input s e
  Preserves-after (onboard input) s = Preserves-settled s _ λ _ _ e. Preserves-onboard p input s e

  pub Preserves-run :
      (cs : List Call) (s : ProviderState) → Preserves p.provider_name s (run p cs s)
  unfolding run
  Preserves-run [] s = same_state p s
  Preserves-run (c ∷ cs) s =
      let (f, g) = Preserves-after c s in
      let (f', g') = Preserves-run cs (after p c s) in (λ l. f' (f l), λ k i h. g' k i (g k i h))

  -- After any calls of a new provider, every charge that `getCharge` finds has the id that it is found
  -- by, and its amounts fit its state and are of one currency: an authorized charge holds nothing, and
  -- of the others the refunded amount is at most the captured one, which is positive and at most the
  -- amount charged; it is zero, less than the captured amount, or equal to it by the state.
  pub get_charge-run :
      (cs : List Call) (id : String) {c : MerchantCharge}
      → get_charge p id (run p cs no_charges) ≡ some c
      → (c.charge_id ≡ id) × (c.provider ≡ p.provider_name) × IsBalanced c
  unfolding get_charge
  get_charge-run cs id h = elim (Option-cases (get (run p cs no_charges).charges id)) [
    | inl e ↦ absurd (let k = rw e at h in cc)
    | inr (v, e) ↦
        let l = (Preserves-run cs no_charges).0 (no_charges-IsLedger p.provider_name) in
        subst (λ c. (c.charge_id ≡ id) × (c.provider ≡ p.provider_name) × IsBalanced c)
          (same_some (rw e at h)) (l.entries id v e)
  ]

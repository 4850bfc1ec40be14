-- ===== src/Merchant.antt =====
-- packages/payments/src/contract.ts and mocks.ts: a merchant's payment provider, and `makeProvider`,
-- the state machine of charges, captures and refunds behind both mock providers. An operation throws
-- before it changes anything, so it is a function to a fault or to a value and the new state.
pub mod Charges
pub mod Amounts
pub mod Steps
pub mod Runs
pub mod Retries
pub mod Tests
use booking_lumin_checkout.Base.{
  ℕ, suc, String, Bool, true, false, not, ◌&&◌, ◌||◌, ◌==◌, nat_eq, Option, none, some, List, [],
  ◌∷◌, ◌++◌, map, any, or_else, if◌then◌else◌,
}
use Prim.Native.String
use booking_lumin_checkout.Base.Decimal.{decimal}
use booking_lumin_checkout.Base.Int.{ℤ, pos, ◌+ℤ◌, leb_ℤ, eq_ℤ, ltb_ℤ}
use booking_lumin_checkout.Base.Dict.{Dict, get, put}
use booking_lumin_checkout.Base.Result.{Result, ok, err, ◌>>=◌, ◌>>◌, throw_if}
use booking_lumin_checkout.Contracts.Money.{Money, money}
use booking_lumin_checkout.Routing.{
  PaymentMethod, ProviderCapability, serves_country, serves_currency, serves_method,
}

pub data MerchantPaymentState : Type 0 where
  requires_action authorized captured failed canceled refunded partially_refunded :
      MerchantPaymentState

pub record MerchantCharge : Type 0 where
  pub charge_id : String
  pub provider : String
  pub state : MerchantPaymentState
  pub amount : Money
  pub captured : Money
  pub refunded : Money
  pub method : PaymentMethod

-- Also the input of `authorize`. The token of a saved method and the metadata are read by no mock.
pub record CreateChargeInput : Type 0 where
  pub tenant_id : String
  pub reference : String
  pub amount : Money
  pub country : String
  pub method : PaymentMethod
  pub idempotency_key : String

pub record SaveMethodInput : Type 0 where
  pub tenant_id : String
  pub customer_ref : String
  pub method : PaymentMethod
  pub country : String
  pub currency : String

pub record SavedMethodRef : Type 0 where
  pub saved_method_id : String
  pub provider : String
  pub method : PaymentMethod

pub record MarketplaceAccountInput : Type 0 where
  pub tenant_id : String
  pub seller_ref : String
  pub country : String
  pub currency : String

pub record MarketplaceAccountRef : Type 0 where
  pub account_id : String
  pub provider : String
  pub onboarding_complete : Bool

pub record ChargeState : Type 0 where
  pub charge : MerchantCharge
  pub tenant_id : String
  pub reference : String

-- The variables of the closure.
pub record ProviderState : Type 0 where
  pub charges : Dict ChargeState
  pub by_idempotency_key : Dict String
  pub saved_methods : Dict SavedMethodRef
  pub marketplace_accounts : List MarketplaceAccountRef
  pub counter : ℕ
  pub saved_counter : ℕ
  pub acct_counter : ℕ

abbrev pub no_charges : ProviderState
no_charges = record {
  charges = [];
  by_idempotency_key = [];
  saved_methods = [];
  marketplace_accounts = [];
  counter = 0;
  saved_counter = 0;
  acct_counter = 0;
}

-- The code of a PaymentError.
pub data PaymentFault : Type 0 where
  provider_unavailable invalid_request illegal_transition : PaymentFault

abbrev pub Outcome : Type 0 → Type 0
Outcome A = Result PaymentFault (A × ProviderState)

abbrev pub found {ℓ} : {A : Type ℓ} → Option A → Result PaymentFault A
found none = err PaymentFault.invalid_request
found (some a) = ok a

abbrev pub must_get : ProviderState → String → Result PaymentFault ChargeState
must_get s id = found (get s.charges id)

abbrev pub can_capture : MerchantPaymentState → Bool
can_capture MerchantPaymentState.authorized = true
can_capture _ = false

abbrev pub is_captured : MerchantPaymentState → Bool
is_captured MerchantPaymentState.captured = true
is_captured _ = false

abbrev pub is_refundable : MerchantPaymentState → Bool
is_refundable MerchantPaymentState.captured = true
is_refundable MerchantPaymentState.partially_refunded = true
is_refundable _ = false

abbrev not_positive : Money → Bool
not_positive m = leb_ℤ m.amount (pos 0)

abbrev currency_matches : MerchantCharge → Money → Bool
currency_matches charge amount = amount.currency == charge.amount.currency

-- A change of one charge in the map.
abbrev pub with_charge : ProviderState → String → ChargeState → MerchantCharge → ProviderState
with_charge s id c charge = record s { charges = put s.charges id (record c { charge = charge }) }

-- A provider's name and its capabilities.
pub record Setup : Type 0 where
  pub provider_name : String
  pub capability : ProviderCapability

abbrev pub numbered : Setup → String → ℕ → String
numbered p kind n = String.◌++◌ p.provider_name (String.◌++◌ kind (decimal n))

module _ (p : Setup) where
  unfoldable pub assert_serves : String → String → PaymentMethod → Result PaymentFault (Unit {0})
  assert_serves country currency method = do
    throw_if (not (serves_country p.capability country)) PaymentFault.provider_unavailable
    throw_if (not (serves_currency p.capability currency)) PaymentFault.provider_unavailable
    throw_if (not (serves_method p.capability method)) PaymentFault.provider_unavailable

  abbrev charge_from : CreateChargeInput → MerchantPaymentState → String → MerchantCharge
  charge_from input state id = record {
    charge_id = id;
    provider = p.provider_name;
    state = state;
    amount = input.amount;
    captured = if is_captured state then input.amount else money (pos 0) input.amount.currency;
    refunded = money (pos 0) input.amount.currency;
    method = input.method;
  }

  unfoldable pub new_charge :
      CreateChargeInput → MerchantPaymentState → ProviderState → MerchantCharge × ProviderState
  new_charge input state s =
      let id = numbered p "_chg_" (suc s.counter) in
      let charge = charge_from input state id in
      (
        charge,
        record s {
          counter = suc s.counter;
          charges = put s.charges id (record {
            charge = charge;
            tenant_id = input.tenant_id;
            reference = input.reference;
          });
          by_idempotency_key = put s.by_idempotency_key input.idempotency_key id;
        },
      )

  -- The charge of a key that was used before, or a new one. An id is never an empty text.
  unfoldable pub charge_once :
      CreateChargeInput
      → MerchantPaymentState
      → ProviderState
      → Option String
      → Outcome MerchantCharge
  unfolding assert_serves new_charge
  charge_once input state s (some id) = do c ← must_get s id; ok (c.charge, s)
  charge_once input state s none = do
    assert_serves input.country input.amount.currency input.method
    throw_if (not_positive input.amount) PaymentFault.invalid_request
    ok (new_charge input state s)

  unfoldable pub create_charge : CreateChargeInput → ProviderState → Outcome MerchantCharge
  unfolding charge_once
  create_charge input s =
      charge_once input MerchantPaymentState.captured s
        (get s.by_idempotency_key input.idempotency_key)

  abbrev charge_in : Option ChargeState → Option MerchantCharge
  charge_in none = none
  charge_in (some c) = some c.charge

  unfoldable pub get_charge : String → ProviderState → Option MerchantCharge
  get_charge id s = charge_in (get s.charges id)

  unfoldable pub authorize : CreateChargeInput → ProviderState → Outcome MerchantCharge
  unfolding charge_once
  authorize input s = do
    throw_if (not p.capability.supports_auth_capture) PaymentFault.provider_unavailable
    charge_once input MerchantPaymentState.authorized s
        (get s.by_idempotency_key input.idempotency_key)

  unfoldable pub capture : String → Option Money → ProviderState → Outcome MerchantCharge
  capture id amount s = do
    throw_if (not p.capability.supports_auth_capture) PaymentFault.provider_unavailable
    c ← must_get s id
    throw_if (not (can_capture c.charge.state)) PaymentFault.illegal_transition
    let taken = or_else amount c.charge.amount
    throw_if (not (currency_matches c.charge taken)) PaymentFault.invalid_request
    throw_if (not_positive taken) PaymentFault.invalid_request
    throw_if (ltb_ℤ c.charge.amount.amount taken.amount) PaymentFault.invalid_request
    let charge = record c.charge { captured = taken; state = MerchantPaymentState.captured }
    ok (charge, with_charge s id c charge)

  unfoldable pub refund : String → ProviderState → Outcome MerchantCharge
  refund id s = do
    c ← must_get s id
    throw_if (not (is_captured c.charge.state)) PaymentFault.illegal_transition
    let charge = record c.charge {
      refunded = c.charge.captured;
      state = MerchantPaymentState.refunded;
    }
    ok (charge, with_charge s id c charge)

  unfoldable pub partial_refund : String → Money → ProviderState → Outcome MerchantCharge
  partial_refund id amount s = do
    throw_if (not p.capability.supports_partial_refund) PaymentFault.provider_unavailable
    c ← must_get s id
    throw_if (not (currency_matches c.charge amount)) PaymentFault.invalid_request
    throw_if (not_positive amount) PaymentFault.invalid_request
    throw_if (not (is_refundable c.charge.state)) PaymentFault.illegal_transition
    let sum = c.charge.refunded.amount +ℤ amount.amount
    throw_if (ltb_ℤ c.charge.captured.amount sum) PaymentFault.invalid_request
    let charge = record c.charge {
      refunded = money sum c.charge.amount.currency;
      state =
          if eq_ℤ sum c.charge.captured.amount
          then MerchantPaymentState.refunded
          else MerchantPaymentState.partially_refunded;
    }
    ok (charge, with_charge s id c charge)

  unfoldable pub save_method : SaveMethodInput → ProviderState → Outcome SavedMethodRef
  save_method input s = do
    throw_if (not p.capability.supports_saved_methods) PaymentFault.provider_unavailable
    throw_if (not (serves_method p.capability input.method)) PaymentFault.provider_unavailable
    let id = numbered p "_pm_" (suc s.saved_counter)
    let saved : SavedMethodRef = record {
      saved_method_id = id;
      provider = p.provider_name;
      method = input.method;
    }
    ok (
      saved,
      record s {
        saved_counter = suc s.saved_counter;
        saved_methods = put s.saved_methods id saved;
      },
    )

  unfoldable pub charge_saved_method :
      String → CreateChargeInput → ProviderState → Outcome MerchantCharge
  unfolding charge_once
  charge_saved_method id input s = do
    throw_if (not p.capability.supports_saved_methods) PaymentFault.provider_unavailable
    saved ← found (get s.saved_methods id)
    charge_once (record input { method = saved.method }) MerchantPaymentState.captured s
        (get s.by_idempotency_key input.idempotency_key)

  unfoldable pub list_supported_methods : String → String → List PaymentMethod
  list_supported_methods country currency =
      if serves_country p.capability country && serves_currency p.capability currency
      then p.capability.methods
      else []

  unfoldable pub onboard_marketplace_account :
      MarketplaceAccountInput → ProviderState → Outcome MarketplaceAccountRef
  onboard_marketplace_account input s = do
    throw_if (not p.capability.supports_marketplace) PaymentFault.provider_unavailable
    throw_if (not (serves_country p.capability input.country)) PaymentFault.provider_unavailable
    let account : MarketplaceAccountRef = record {
      account_id = numbered p "_acct_" (suc s.acct_counter);
      provider = p.provider_name;
      onboarding_complete = true;
    }
    ok (
      account,
      record s {
        acct_counter = suc s.acct_counter;
        marketplace_accounts = s.marketplace_accounts ++ (account ∷ []);
      },
    )

abbrev pub list_charges : ProviderState → List MerchantCharge
list_charges s = map (λ (e : String × ChargeState). e.1.charge) s.charges

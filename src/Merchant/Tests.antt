-- ===== src/Merchant/Tests.antt =====
-- Runs of the second mock provider.
use booking_lumin_checkout.Base.{String, ◌≡◌, refl, some, List, [], ◌∷◌}
use booking_lumin_checkout.Base.Int.{pos, ◌+ℤ◌}
use booking_lumin_checkout.Base.Dict.{get, put}
use booking_lumin_checkout.Base.Decimal.{decimal, decimal_from}
use booking_lumin_checkout.Base.Result.{ok, err}
use booking_lumin_checkout.Contracts.Money.{money}
use booking_lumin_checkout.Routing.{PaymentMethod, merchant_b}
use booking_lumin_checkout.Merchant.{
  MerchantPaymentState, MerchantCharge, ProviderState, PaymentFault, Setup, CreateChargeInput,
  new_charge, charge_once, assert_serves, create_charge, get_charge, authorize, refund,
  partial_refund, no_charges,
}
use booking_lumin_checkout.Merchant.Charges.{IsBalanced}
use booking_lumin_checkout.Merchant.Runs.{Call, after, run, get_charge-run}
use booking_lumin_checkout.Merchant.Retries.{create_charge-retry}

merchant : Unit {0}
unfolding create_charge get_charge authorize refund partial_refund after run get put decimal
    decimal_from ◌+ℤ◌ new_charge charge_once assert_serves
merchant = tt

abbrev mock_b : Setup
mock_b = record { provider_name = "mock-merchant-b"; capability = merchant_b }

abbrev order : CreateChargeInput
order = record {
  tenant_id = "t1";
  reference = "b1";
  amount = money (pos 5000) "MXN";
  country = "MX";
  method = PaymentMethod.card;
  idempotency_key = "k1";
}

abbrev charged : MerchantCharge
charged = record {
  charge_id = "mock-merchant-b_chg_1";
  provider = "mock-merchant-b";
  state = MerchantPaymentState.captured;
  amount = money (pos 5000) "MXN";
  captured = money (pos 5000) "MXN";
  refunded = money (pos 0) "MXN";
  method = PaymentMethod.card;
}

abbrev part_back : MerchantCharge
part_back = record charged {
  state = MerchantPaymentState.partially_refunded;
  refunded = money (pos 1000) "MXN";
}

abbrev calls : List Call
calls = Call.create order ∷ (Call.give_part "mock-merchant-b_chg_1" (money (pos 1000) "MXN") ∷ [])

after_part :
    get_charge mock_b "mock-merchant-b_chg_1" (run mock_b calls no_charges) ≡ some part_back
unfolding merchant
after_part = refl

-- A charge that is refunded in part cannot be refunded in full by `refund`.
no_full_refund :
    refund mock_b "mock-merchant-b_chg_1" (run mock_b calls no_charges)
    ≡ err PaymentFault.illegal_transition
unfolding merchant
no_full_refund = refl

get_charge-run_example :
    (◌≡◌ {A = String} "mock-merchant-b_chg_1" "mock-merchant-b_chg_1")
    × (◌≡◌ {A = String} "mock-merchant-b" "mock-merchant-b")
    × IsBalanced part_back
get_charge-run_example = get_charge-run mock_b calls "mock-merchant-b_chg_1" after_part

abbrev charged_state : ProviderState
charged_state = run mock_b (Call.create order ∷ []) no_charges

first : create_charge mock_b order (run mock_b [] no_charges) ≡ ok (charged, charged_state)
unfolding merchant
first = refl

abbrev refunds : List Call
refunds = Call.give_back "mock-merchant-b_chg_1" ∷ []

create_charge-retry_example :
    (c' : MerchantCharge) × (create_charge mock_b order (run mock_b refunds charged_state)
      ≡ ok (c', run mock_b refunds charged_state))
    × (◌≡◌ {A = String} c'.charge_id "mock-merchant-b_chg_1")
create_charge-retry_example = create_charge-retry mock_b [] refunds order order first refl

-- ===== src/Routing/Tests.antt =====
-- Runs of `selectProvider` on the registry of packages/payments/src/capability.ts.
use booking_lumin_checkout.Base.{true, false, ◌≡◌, refl, Option, none, some, All, ◌⊎◌}
use booking_lumin_checkout.Base.Int.{◌-ℤ◌}
use booking_lumin_checkout.Routing.{
  merchant_a, registry, PaymentMethod, RoutingRequest, NoProviderReason, matched, no_provider,
  serves, presents, dropped, rank, insert, sort, preferred, route, select_provider,
}
use booking_lumin_checkout.Routing.Laws.{IsRouted, select_provider-IsRouted, select_provider_none}

routing : Unit {0}
unfolding serves dropped rank insert sort preferred route select_provider ◌-ℤ◌
routing = tt

abbrev from_germany : Option PaymentMethod → RoutingRequest
from_germany method = record {
  country = "DE";
  currency = "EUR";
  tenant_preference = some "mock-merchant-b";
  method_preference = method;
  transaction_geography = none;
}

card_paid :
    select_provider (from_germany (some PaymentMethod.card)) registry ≡ matched merchant_a true
unfolding routing
card_paid = refl

cash_refused :
    select_provider (from_germany (some PaymentMethod.cash)) registry
    ≡ no_provider NoProviderReason.no_method
unfolding routing
cash_refused = refl

select_provider-IsRouted_example :
    IsRouted (from_germany (some PaymentMethod.card)) registry merchant_a true
select_provider-IsRouted_example = select_provider-IsRouted _ _ card_paid

select_provider_none_example :
    All
      (λ c.
        (serves (from_germany (some PaymentMethod.cash)) c ≡ false)
        ⊎ (presents c (some PaymentMethod.cash) ≡ false))
      registry
select_provider_none_example = select_provider_none _ _ cash_refused

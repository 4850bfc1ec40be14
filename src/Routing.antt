-- ===== src/Routing.antt =====
-- packages/payments/src/capability.ts and routing.ts: which payment provider takes a transaction. The
-- texts that explain a result are not modelled.
pub mod Ranking
pub mod Meets
pub mod Laws
pub mod Tests
use booking_lumin_checkout.Base.{
  ℕ, String, Bool, true, false, not, ◌&&◌, ◌==◌, nat_eq, Option, none, some, List, [], ◌∷◌, length,
  is_empty, keep, any, find, if◌then◌else◌,
}
use Prim.Native.Nat.{Ordering}
use Prim.Native.String.{compare}
use booking_lumin_checkout.Base.Int.{ℤ, pos, negsuc, ◌-ℤ◌, leb_ℤ}

pub data PaymentMethod : Type 0 where
  card bank_transfer wallet local_scheme cash : PaymentMethod

abbrev method_number : PaymentMethod → ℕ
method_number PaymentMethod.card = 0
method_number PaymentMethod.bank_transfer = 1
method_number PaymentMethod.wallet = 2
method_number PaymentMethod.local_scheme = 3
method_number PaymentMethod.cash = 4

pub record ProviderCapability : Type 0 where
  pub provider : String
  pub countries : List String
  pub currencies : List String
  pub methods : List PaymentMethod
  pub supports_auth_capture : Bool
  pub supports_partial_refund : Bool
  pub supports_saved_methods : Bool
  pub supports_marketplace : Bool

abbrev pub merchant_a : ProviderCapability
merchant_a = record {
  provider = "mock-merchant-a";
  countries = "US" ∷ "DE" ∷ "FR" ∷ "IE" ∷ "NL" ∷ [];
  currencies = "USD" ∷ "EUR" ∷ [];
  methods = PaymentMethod.card ∷ PaymentMethod.wallet ∷ [];
  supports_auth_capture = true;
  supports_partial_refund = false;
  supports_saved_methods = true;
  supports_marketplace = false;
}

abbrev pub merchant_b : ProviderCapability
merchant_b = record {
  provider = "mock-merchant-b";
  countries = "MX" ∷ "BR" ∷ [];
  currencies = "MXN" ∷ "BRL" ∷ [];
  methods = PaymentMethod.card ∷ PaymentMethod.bank_transfer ∷ PaymentMethod.local_scheme ∷ [];
  supports_auth_capture = false;
  supports_partial_refund = true;
  supports_saved_methods = true;
  supports_marketplace = true;
}

abbrev pub registry : List ProviderCapability
registry = merchant_a ∷ merchant_b ∷ []

abbrev pub capability_for : String → List ProviderCapability → Option ProviderCapability
capability_for provider = find (λ (c : ProviderCapability). c.provider == provider)

abbrev pub serves_country : ProviderCapability → String → Bool
serves_country cap country = any (λ c. c == country) cap.countries

abbrev pub serves_currency : ProviderCapability → String → Bool
serves_currency cap currency = any (λ c. c == currency) cap.currencies

abbrev pub serves_method : ProviderCapability → PaymentMethod → Bool
serves_method cap method = any (λ m. nat_eq (method_number m) (method_number method)) cap.methods

-- An empty text counts as one that is left out.
pub record RoutingRequest : Type 0 where
  pub country : String
  pub currency : String
  pub tenant_preference : Option String
  pub method_preference : Option PaymentMethod
  pub transaction_geography : Option String

pub data NoProviderReason : Type 0 where
  no_country no_currency no_geography no_method preference_unsatisfiable : NoProviderReason

pub data RoutingResult : Type 0 where
  matched : (capability : ProviderCapability) (method_satisfied : Bool) → RoutingResult
  no_provider : NoProviderReason → RoutingResult

abbrev pub serves_geography : ProviderCapability → Option String → Bool
serves_geography cap none = true
serves_geography cap (some geography) =
    if geography == "" then true else serves_country cap geography

abbrev pub presents : ProviderCapability → Option PaymentMethod → Bool
presents cap none = true
presents cap (some method) = serves_method cap method

-- The hard requirements.
unfoldable pub serves : RoutingRequest → ProviderCapability → Bool
serves request cap =
    serves_country cap request.country
    && (serves_currency cap request.currency && serves_geography cap request.transaction_geography)

-- Why there is no candidate, from the flags of the filter.
unfoldable pub dropped : RoutingRequest → List ProviderCapability → NoProviderReason
unfolding serves
dropped request capabilities =
    if not (any (λ c. serves_country c request.country) capabilities)
    then NoProviderReason.no_country
    else if not (
        any (λ c. serves_country c request.country && serves_currency c request.currency)
          capabilities)
    then NoProviderReason.no_currency
    else if not (any (serves request) capabilities)
    then NoProviderReason.no_geography
    else NoProviderReason.no_currency

abbrev preference_rank : ProviderCapability → Option PaymentMethod → ℤ
preference_rank cap method = if presents cap method then pos 0 else pos 1

abbrev pub name_rank : String → String → ℤ
name_rank a b = elim (compare a b) [
  | Ordering.lt ↦ negsuc 0
  | Ordering.eq ↦ pos 0
  | Ordering.gt ↦ pos 1
]

-- Negative where the first is better.
unfoldable pub rank : Option PaymentMethod → ProviderCapability → ProviderCapability → ℤ
rank method a b =
    if presents a method && not (presents b method)
    then negsuc 0
    else if not (presents a method) && presents b method
    then pos 1
    else if not (nat_eq (length a.countries) (length b.countries))
    then pos (length a.countries) -ℤ pos (length b.countries)
    else if not (nat_eq (length a.currencies) (length b.currencies))
    then pos (length a.currencies) -ℤ pos (length b.currencies)
    else name_rank a.provider b.provider

-- The sort by rank, which keeps the order of equals.
unfoldable pub insert :
    Option PaymentMethod → ProviderCapability → List ProviderCapability → List ProviderCapability
insert method c [] = c ∷ []
insert method c (d ∷ ds) =
    let rest = insert method c ds in
    if leb_ℤ (rank method c d) (pos 0) then c ∷ (d ∷ ds) else d ∷ rest

unfoldable pub sort : Option PaymentMethod → List ProviderCapability → List ProviderCapability
sort method [] = []
sort method (c ∷ cs) = insert method c (sort method cs)

-- The candidate that the tenant prefers.
unfoldable pub preferred : Option String → List ProviderCapability → Option ProviderCapability
preferred none candidates = none
preferred (some provider) candidates =
    if provider == "" then none else capability_for provider candidates

-- The first of the sorted ones; there is none where no candidate presents the method.
abbrev pub ranked_first : Option PaymentMethod → List ProviderCapability → RoutingResult
ranked_first method [] = no_provider NoProviderReason.no_method
ranked_first method (winner ∷ _) = matched winner (presents winner method)

unfoldable pub route :
    RoutingRequest → List ProviderCapability → Option ProviderCapability → RoutingResult
route request candidates (some chosen) = matched chosen (presents chosen request.method_preference)
route request candidates none =
    ranked_first request.method_preference
      (sort request.method_preference (keep (λ c. presents c request.method_preference) candidates))

unfoldable pub select_provider : RoutingRequest → List ProviderCapability → RoutingResult
select_provider request capabilities =
    let candidates = keep (serves request) capabilities in
    if is_empty candidates
    then no_provider (dropped request capabilities)
    else route request candidates (preferred request.tenant_preference candidates)

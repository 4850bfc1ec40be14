-- ===== src/Routing/Meets.antt =====
-- packages/payments/src/routing.ts: what a request asks of a provider, in terms of its lists.
use booking_lumin_checkout.Base.{
  ℕ, ◌≡◌, refl, sym, ap, subst, ◌∙◌, ◌⊎◌, ◌↔◌, inl, inr, String, Bool, true, ◌==◌, nat_eq, Option,
  none, some, List, arith, any, any_sound, and-cases, eq_iff, Bool-cases, if◌then◌else◌,
}
use mathlib.Core.List.{Memᴰ}
use booking_lumin_checkout.Base.Members.{any-member, member-any}
use booking_lumin_checkout.Routing.{
  PaymentMethod, method_number, ProviderCapability, RoutingRequest, serves_country,
  serves_geography, presents, serves,
}

abbrev IsWithin : ProviderCapability → Option String → Type 0
IsWithin c none = Unit
IsWithin c (some place) = (place ≡ "") ⊎ Memᴰ place c.countries

-- The hard requirements: the country, the currency and, if one is named, the geography of the
-- transaction are among those of the provider.
pub record Meets (request : RoutingRequest) (c : ProviderCapability) : Type 0 where
  pub country : Memᴰ request.country c.countries
  pub currency : Memᴰ request.currency c.currencies
  pub geography : IsWithin c request.transaction_geography

-- The method asked for is among those of the provider, or none is asked for.
abbrev pub Presents : ProviderCapability → Option PaymentMethod → Type 0
Presents c none = Unit
Presents c (some method) = Memᴰ method c.methods

member_text : (xs : List String) (x : String) → Memᴰ x xs → any (λ c. c == x) xs ≡ true
member_text xs x m = member-any (λ c. c == x) xs m ((eq_iff x x).1 refl)

IsWithin-iff :
    (c : ProviderCapability) (place : Option String)
    → (serves_geography c place ≡ true) ↔ IsWithin c place
IsWithin-iff c none = (λ _. tt, λ _. refl)
IsWithin-iff c (some place) = elim (Bool-cases (place == "")) [
  | inl e ↦ (λ _. inl ((eq_iff place "").0 e), λ _. rw e refl)
  | inr e ↦ (
    λ h. inr (any-member c.countries place (rw e at h)),
    λ w. elim w [
      | inl same ↦ absurd (let same' = (eq_iff place "").1 same in cc)
      | inr m ↦ rw e (member_text c.countries place m)
    ],
  )
]

pub serves-Meets :
    (request : RoutingRequest) (c : ProviderCapability) → serves request c ≡ true → Meets request c
unfolding serves
serves-Meets request c h =
    let (a, rest) = and-cases (serves_country c request.country) _ h in
    let (b, g) =
      and-cases (any (λ x. x == request.currency) c.currencies)
        (serves_geography c request.transaction_geography) rest in
    record {
      country = any-member c.countries request.country a;
      currency = any-member c.currencies request.currency b;
      geography = (IsWithin-iff c request.transaction_geography).0 g;
    }

pub Meets-serves :
    (request : RoutingRequest) (c : ProviderCapability) → Meets request c → serves request c ≡ true
unfolding serves
Meets-serves request c m =
    rw
      (
        member_text c.countries request.country m.country,
        member_text c.currencies request.currency m.currency,
        (IsWithin-iff c request.transaction_geography).1 m.geography,
      )
      refl

method_of : ℕ → PaymentMethod
method_of n =
    if nat_eq n 0
    then PaymentMethod.card
    else if nat_eq n 1
    then PaymentMethod.bank_transfer
    else if nat_eq n 2
    then PaymentMethod.wallet
    else if nat_eq n 3
    then PaymentMethod.local_scheme
    else PaymentMethod.cash

abbrev same_method : PaymentMethod → PaymentMethod → Bool
same_method a b = nat_eq (method_number a) (method_number b)

method_back : (m : PaymentMethod) → method_of (method_number m) ≡ m
unfolding method_of
method_back PaymentMethod.card = refl
method_back PaymentMethod.bank_transfer = refl
method_back PaymentMethod.wallet = refl
method_back PaymentMethod.local_scheme = refl
method_back PaymentMethod.cash = refl

same_method_lem : (a b : PaymentMethod) → same_method a b ≡ true → a ≡ b
same_method_lem a b h =
    let same : method_number a ≡ method_number b = ground arith in
    sym (method_back a) ∙ ap method_of same ∙ method_back b

same_method_refl : (a : PaymentMethod) → same_method a a ≡ true
same_method_refl a = ground arith

pub Presents-iff :
    (c : ProviderCapability) (method : Option PaymentMethod)
    → (presents c method ≡ true) ↔ Presents c method
Presents-iff c none = (λ _. tt, λ _. refl)
Presents-iff c (some method) = (
  λ h.
      let (m, found, e) = any_sound (λ m. same_method m method) c.methods h in
      subst (λ x. Memᴰ x c.methods) (same_method_lem m method e) found,
  λ m. member-any (λ x. same_method x method) c.methods m (same_method_refl method),
)

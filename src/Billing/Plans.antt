-- ===== src/Billing/Plans.antt =====
-- packages/billing/src/plans.ts: plans, add-ons and the catalog. Amounts are whole; what the schemas
-- check beyond the types is a parameter, `parses`.
use booking_lumin_checkout.Base.{
  ◌≡◌, refl, true, ℕ, String, Bool, not, ◌==◌, none, some, List, [], ◌∷◌, any, find,
}
use booking_lumin_checkout.Base.Int.{ℤ, pos}
use booking_lumin_checkout.Base.Result.{Result, ok, err, ◌>>=◌, ◌>>◌, throw_if}

pub data BillingInterval : Type 0 where
  monthly annual : BillingInterval

pub record AddOn : Type 0 where
  pub key : String
  pub name : String
  pub amount : ℤ
  pub currency : String

pub record Plan : Type 0 where
  pub key : String
  pub name : String
  pub interval : BillingInterval
  pub amount : ℤ
  pub currency : String
  pub trial_days : ℕ
  pub features : List String
  pub addon_keys : List String

pub record PlanCatalog : Type 0 where
  pub currency : String
  pub plans : List Plan
  pub addons : List AddOn

pub data CatalogError : Type 0 where
  not_parsed : CatalogError
  duplicate_plan plan_currency duplicate_addon addon_currency unknown_plan unknown_addon :
      String → CatalogError
  plan_addon : (plan addon : String) → CatalogError

-- The keys that were seen, after the loop over the plans or the add-ons.
unfoldable pub check_plans : String → List String → List Plan → Result CatalogError (List String)
check_plans currency seen [] = ok seen
check_plans currency seen (p ∷ ps) = do
  throw_if (any (λ k. k == p.key) seen) (duplicate_plan p.key)
  throw_if (not (p.currency == currency)) (plan_currency p.key)
  check_plans currency (p.key ∷ seen) ps

unfoldable pub check_addons : String → List String → List AddOn → Result CatalogError (List String)
check_addons currency seen [] = ok seen
check_addons currency seen (a ∷ as') = do
  throw_if (any (λ k. k == a.key) seen) (duplicate_addon a.key)
  throw_if (not (a.currency == currency)) (addon_currency a.key)
  check_addons currency (a.key ∷ seen) as'

unfoldable pub check_keys : String → List String → List String → Result CatalogError (Unit {0})
check_keys plan known [] = ok tt
check_keys plan known (k ∷ ks) = do
  throw_if (not (any (λ a. a == k) known)) (plan_addon plan k)
  check_keys plan known ks

unfoldable pub check_plan_addons : List String → List Plan → Result CatalogError (Unit {0})
check_plan_addons known [] = ok tt
check_plan_addons known (p ∷ ps) = do
  check_keys p.key known p.addon_keys
  check_plan_addons known ps

unfoldable pub make_plan_catalog :
    (PlanCatalog → Bool) → PlanCatalog → Result CatalogError PlanCatalog
make_plan_catalog parses catalog = do
  throw_if (not (parses catalog)) not_parsed
  plan_keys ← check_plans catalog.currency [] catalog.plans
  addon_keys ← check_addons catalog.currency [] catalog.addons
  check_plan_addons addon_keys catalog.plans
  ok catalog

unfoldable pub get_plan : PlanCatalog → String → Result CatalogError Plan
get_plan catalog key = elim (find (λ (p : Plan). p.key == key) catalog.plans) [
  | none ↦ err (unknown_plan key)
  | some p ↦ ok p
]

unfoldable pub get_addon : PlanCatalog → String → Result CatalogError AddOn
get_addon catalog key = elim (find (λ (a : AddOn). a.key == key) catalog.addons) [
  | none ↦ err (unknown_addon key)
  | some a ↦ ok a
]

abbrev sample_input : PlanCatalog
sample_input = record {
  currency = "USD";
  plans =
      record {
        key = "starter";
        name = "Starter";
        interval = BillingInterval.monthly;
        amount = pos 0;
        currency = "USD";
        trial_days = 0;
        features = "booking" ∷ "single_service" ∷ [];
        addon_keys = [];
      }
      ∷ record {
        key = "pro";
        name = "Pro";
        interval = BillingInterval.monthly;
        amount = pos 4900;
        currency = "USD";
        trial_days = 14;
        features = "booking" ∷ "multi_service" ∷ "reminders" ∷ "analytics" ∷ [];
        addon_keys = "extra_seats" ∷ "sms" ∷ [];
      }
      ∷ record {
        key = "pro_annual";
        name = "Pro (Annual)";
        interval = BillingInterval.annual;
        amount = pos 49_000;
        currency = "USD";
        trial_days = 14;
        features = "booking" ∷ "multi_service" ∷ "reminders" ∷ "analytics" ∷ [];
        addon_keys = "extra_seats" ∷ "sms" ∷ [];
      }
      ∷ record {
        key = "scale";
        name = "Scale";
        interval = BillingInterval.monthly;
        amount = pos 14_900;
        currency = "USD";
        trial_days = 14;
        features =
            "booking" ∷ "multi_service" ∷ "reminders" ∷ "analytics" ∷ "api_access"
            ∷ "priority_support" ∷ [];
        addon_keys = "extra_seats" ∷ "sms" ∷ "usage_bookings" ∷ [];
      }
      ∷ [];
  addons =
      record { key = "extra_seats"; name = "Extra staff seats"; amount = pos 900; currency = "USD" }
      ∷ record { key = "sms"; name = "SMS reminders"; amount = pos 1500; currency = "USD" }
      ∷ record {
        key = "usage_bookings";
        name = "Metered bookings overage";
        amount = pos 0;
        currency = "USD";
      }
      ∷ [];
}

unfoldable pub sample_catalog : (PlanCatalog → Bool) → Result CatalogError PlanCatalog
unfolding make_plan_catalog
sample_catalog parses = make_plan_catalog parses sample_input

-- The sample catalog is accepted.
sample_catalog_test : sample_catalog (λ c. true) ≡ ok sample_input
unfolding sample_catalog make_plan_catalog check_plans check_addons check_keys check_plan_addons
sample_catalog_test = refl

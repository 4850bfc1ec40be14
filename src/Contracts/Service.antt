-- ===== src/Contracts/Service.antt =====
-- packages/contracts/src/service.ts and pricing.ts: the service configuration, what a customer
-- chose, and the price. The contract's whole numbers are ℤ where they can be negative or where the
-- code tests their sign, and ℕ where the contract says `.min(0)` and the code makes no such test.
use booking_lumin_checkout.Base.{ℕ, String, Bool, Option, List}
use booking_lumin_checkout.Base.Int.{ℤ}
use booking_lumin_checkout.Base.Dict.{Dict}
use booking_lumin_checkout.Contracts.Money.{Money}

pub data Archetype : Type 0 where
  simple cart configurable rental : Archetype

pub record ServiceItem : Type 0 where
  pub id : String
  pub name : String
  pub unit_price : ℤ
  pub min_qty : ℤ
  pub max_qty : ℤ

pub record ServiceAddon : Type 0 where
  pub id : String
  pub name : String
  pub price : ℤ

pub record QuestionChoice : Type 0 where
  pub id : String
  pub label : String
  pub price_delta : ℤ
  pub price_multiplier_bp : ℕ

pub data QuestionKind : Type 0 where
  single_choice multi_choice quantity : QuestionKind

pub record ServiceQuestion : Type 0 where
  pub id : String
  pub prompt : String
  pub kind : QuestionKind
  pub required : Bool
  pub choices : List QuestionChoice
  pub unit_price : Option ℤ
  pub min_qty : Option ℤ
  pub max_qty : Option ℤ

pub record RentalConfig : Type 0 where
  pub period_minutes : ℕ
  pub price_per_period : ℤ
  pub min_periods : ℤ
  pub max_periods : ℤ
  pub deposit_amount : ℤ

pub record Service : Type 0 where
  pub id : String
  pub tenant_id : String
  pub archetype : Archetype
  pub name : String
  pub currency : String
  pub base_price : ℤ
  pub duration_minutes : ℕ
  pub items : List ServiceItem
  pub addons : List ServiceAddon
  pub questions : List ServiceQuestion
  pub rental : Option RentalConfig
  pub tax_rate_bp : ℕ
  pub active : Bool

pub record Answer : Type 0 where
  pub choice_ids : List String
  pub quantity : Option ℤ

pub record Selection : Type 0 where
  pub service_id : String
  pub item_quantities : Dict ℤ
  pub addon_ids : List String
  pub answers : Dict Answer
  pub rental_periods : Option ℤ

pub record PriceLine : Type 0 where
  pub code : String
  pub label : String
  pub amount : Money
  pub quantity : ℤ

pub record PriceBreakdown : Type 0 where
  pub lines : List PriceLine
  pub subtotal : Money
  pub tax : Money
  pub deposit : Money
  pub total : Money

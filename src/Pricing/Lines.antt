-- ===== src/Pricing/Lines.antt =====
-- packages/core/src/pricing.ts: the archetype check and the lines of the base price, the items, the
-- addons and the rental.
use booking_lumin_checkout.Base.{
  String, Bool, not, ◌||◌, ◌==◌, Option, none, some, List, [], ◌∷◌, any, or_else, if◌then◌else◌,
}
use Prim.Native.String
use booking_lumin_checkout.Base.Int.{ℤ, pos, ltb_ℤ, eq_ℤ}
use booking_lumin_checkout.Base.Dict.{Dict, get}
use booking_lumin_checkout.Base.Result.{Result, ok, err, ◌>>=◌, ◌>>◌, throw_if}
use booking_lumin_checkout.Contracts.Money.{money}
use booking_lumin_checkout.Contracts.Service.{
  Archetype, rental, ServiceItem, ServiceAddon, RentalConfig, Service, Selection, PriceLine,
}
use booking_lumin_checkout.Pricing.Refusals.{
  Reason, rental_config_missing, rental_periods_required, rental_periods_not_valid, unknown_item,
  invalid_item_quantity, item_out_of_range, unknown_addon, duplicate_addon, rental_out_of_range,
}

abbrev pub line : String → String → ℤ → String → ℤ → PriceLine
line code label amount currency quantity = record {
  code = code;
  label = label;
  amount = money amount currency;
  quantity = quantity;
}

abbrev pub is_rental : Archetype → Bool
is_rental rental = Bool.true
is_rental _ = Bool.false

-- The archetype check; the rental configuration and the periods asked, for a rental service.
unfoldable pub terms_of :
    Bool → Option RentalConfig → Option ℤ → Result Reason (Option (RentalConfig × ℤ))
terms_of Bool.true none periods = err rental_config_missing
terms_of Bool.true (some config) none = err rental_periods_required
terms_of Bool.true (some config) (some n) = ok (some (config, n))
terms_of Bool.false config none = ok none
terms_of Bool.false config (some n) = err rental_periods_not_valid

unfoldable pub rental_terms : Service → Selection → Result Reason (Option (RentalConfig × ℤ))
unfolding terms_of
rental_terms service selection =
    terms_of (is_rental service.archetype) service.rental selection.rental_periods

unfoldable pub base_lines : Service → List PriceLine
base_lines service =
    if ltb_ℤ (pos 0) service.base_price
    then line "base" service.name service.base_price service.currency (pos 1) ∷ []
    else []

unfoldable pub check_items : List ServiceItem → List String → Result Reason (Unit {0})
check_items items [] = ok tt
check_items items (id ∷ ids) = do
  throw_if (not (any (λ i. i.id == id) items)) (unknown_item id)
  check_items items ids

unfoldable pub item_lines : String → Dict ℤ → List ServiceItem → Result Reason (List PriceLine)
item_lines currency quantities [] = ok []
item_lines currency quantities (item ∷ items) = do
  let qty = or_else (get quantities item.id) (pos 0)
  throw_if (ltb_ℤ qty (pos 0)) (invalid_item_quantity item.id)
  throw_if (ltb_ℤ qty item.min_qty || ltb_ℤ item.max_qty qty) (item_out_of_range item.id)
  rest ← item_lines currency quantities items
  ok (
      if ltb_ℤ (pos 0) qty
      then line (String.◌++◌ "item:" item.id) item.name item.unit_price currency qty ∷ rest
      else rest)

-- `new Map(addons.map((a) => [a.id, a])).get(id)`: of two addons with one id the later is found.
unfoldable pub addon_by_id : List ServiceAddon → String → Option ServiceAddon
addon_by_id [] id = none
addon_by_id (a ∷ addons) id =
    let later = addon_by_id addons id in
    elim later [ some b ↦ some b | none ↦ if a.id == id then some a else none ]

unfoldable pub addon_lines :
    String → List ServiceAddon → List String → List String → Result Reason (List PriceLine)
addon_lines currency addons seen [] = ok []
addon_lines currency addons seen (id ∷ ids) = elim (addon_by_id addons id) [
  | none ↦ err (unknown_addon id)
  | some addon ↦ do
    throw_if (any (λ s. s == id) seen) (duplicate_addon id)
    rest ← addon_lines currency addons (id ∷ seen) ids
    ok (line (String.◌++◌ "addon:" addon.id) addon.name addon.price currency (pos 1) ∷ rest)
]

-- The rental line, and the deposit.
unfoldable pub rental_effect :
    Service → Option (RentalConfig × ℤ) → Result Reason (List PriceLine × ℤ)
rental_effect service none = ok ([], pos 0)
rental_effect service (some (config, periods)) = do
  throw_if (ltb_ℤ periods config.min_periods || ltb_ℤ config.max_periods periods)
      rental_out_of_range
  ok (
    (if eq_ℤ config.price_per_period (pos 0)
        then []
        else line "rental" (String.◌++◌ service.name " rental") config.price_per_period
            service.currency periods
          ∷ []),
    config.deposit_amount,
  )

-- ===== src/I18n/Tests.antt =====
-- Amounts and their texts, as code units.
use booking_lumin_checkout.Base.{◌≡◌, refl, [], ◌∷◌, arith}
use booking_lumin_checkout.Base.Int.{pos, negsuc}
use booking_lumin_checkout.Base.Result.{ok, err}
use booking_lumin_checkout.I18n.Currency.{CurrencyFault, to_minor_units, parse_minor_units}
use booking_lumin_checkout.I18n.RoundTrip.{to_minor_units-parse_minor_units}

to_minor_units-parse_minor_units_example :
    to_minor_units (parse_minor_units (negsuc 449) "USD") "USD" ≡ ok (negsuc 449)
to_minor_units-parse_minor_units_example =
    to_minor_units-parse_minor_units (negsuc 449) "USD" (omega arith, omega arith)

-- "-4.50" and "1500"
written :
    (parse_minor_units (negsuc 449) "USD" ≡ 45 ∷ (52 ∷ (46 ∷ (53 ∷ (48 ∷ [])))))
    × (parse_minor_units (pos 1500) "JPY" ≡ 49 ∷ (53 ∷ (48 ∷ (48 ∷ []))))
unfolding parse_minor_units
written = (refl, refl)

-- " 007.5", "1.005" and "1.5" yen
readings :
    (to_minor_units (32 ∷ (48 ∷ (48 ∷ (55 ∷ (46 ∷ (53 ∷ [])))))) "USD" ≡ ok (pos 750))
    × (to_minor_units (49 ∷ (46 ∷ (48 ∷ (48 ∷ (53 ∷ []))))) "USD"
        ≡ err CurrencyFault.too_many_digits)
    × (to_minor_units (49 ∷ (46 ∷ (53 ∷ []))) "JPY" ≡ err CurrencyFault.too_many_digits)
    × (to_minor_units (46 ∷ (53 ∷ [])) "USD" ≡ err CurrencyFault.not_a_decimal)
unfolding to_minor_units
readings = (refl, refl, refl, refl)

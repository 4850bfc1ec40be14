-- ===== src/Base/Decimal.antt =====
-- A number as a template text writes it.
use Prim.Native.Nat.{ℕ, zero, suc, ◌/◌, ◌%◌}
use Prim.Native.String.{String, ◌++◌}
use mathlib.Core.List.{List, [], ◌∷◌}
use booking_lumin_checkout.Base.Tests.{ltb, or_else, if◌then◌else◌}
use booking_lumin_checkout.Base.Lists.{get_elem?}

abbrev pub digit_texts : List String
digit_texts = "0" ∷ "1" ∷ "2" ∷ "3" ∷ "4" ∷ "5" ∷ "6" ∷ "7" ∷ "8" ∷ "9" ∷ []

unfoldable pub decimal_from : ℕ → ℕ → String
decimal_from zero n = ""
decimal_from (suc f) n =
    let rest = decimal_from f (n / 10) in
    let last = or_else (get_elem? digit_texts (n % 10)) "" in
    if ltb n 10 then last else rest ++ last

-- A number in decimal; each round takes a digit, so the number itself is fuel enough.
unfoldable pub decimal : ℕ → String
unfolding decimal_from
decimal n = decimal_from (suc n) n

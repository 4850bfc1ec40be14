-- ===== src/I18n/Currency.antt =====
-- packages/i18n/src/currency.ts: `toMinorUnits` and `parseMinorUnits`. A text is the list of its
-- code units; amounts are whole.
use booking_lumin_checkout.Base.{
  ℕ, zero, suc, ◌+◌, ◌-◌, ◌*◌, ◌/◌, ◌%◌, String, Bool, true, false, not, ◌&&◌, ◌||◌, nat_eq, ltb,
  leb, List, [], ◌∷◌, ◌++◌, length, any, is_empty, if◌then◌else◌,
}
use booking_lumin_checkout.Base.Int.{ℤ, pos, negsuc, pos_part, neg_part, max_safe}
use booking_lumin_checkout.Base.Result.{Result, ok, err, ◌>>=◌, ◌>>◌, throw_if}
use booking_lumin_checkout.Contracts.Money.{minor_unit_factor}

pub data CurrencyFault : Type 0 where
  not_a_decimal too_many_digits out_of_range : CurrencyFault

abbrev pub minus_sign : ℕ
minus_sign = 45

abbrev pub point : ℕ
point = 46

abbrev pub digit_zero : ℕ
digit_zero = 48

abbrev pub is_digit : ℕ → Bool
is_digit c = leb digit_zero c && leb c 57

-- White space and line ends, as `trim` takes them off.
abbrev pub is_space : ℕ → Bool
is_space c =
    (leb 9 c && leb c 13)
    || any (λ s. nat_eq s c)
        (32 ∷ (160 ∷ (5760 ∷ (8232 ∷ (8233 ∷ (8239 ∷ (8287 ∷ (12288 ∷ (65279 ∷ [])))))))))
    || (leb 8192 c && leb c 8202)

unfoldable pub trim_start : List ℕ → List ℕ
trim_start [] = []
trim_start (c ∷ s) = if is_space c then trim_start s else c ∷ s

unfoldable pub trim_end : List ℕ → List ℕ
trim_end [] = []
trim_end (c ∷ s) = let rest = trim_end s in if is_empty rest && is_space c then [] else c ∷ rest

-- The digits that a text begins with, and the rest of it.
unfoldable pub span_digits : List ℕ → List ℕ × List ℕ
span_digits [] = ([], [])
span_digits (c ∷ s) =
    let (ds, rest) = span_digits s in if is_digit c then (c ∷ ds, rest) else ([], c ∷ s)

pub record DecimalMatch : Type 0 where
  pub is_negative : Bool
  pub int_part : List ℕ
  pub frac_part : List ℕ

abbrev pub match_fraction : Bool → List ℕ → List ℕ → Result CurrencyFault DecimalMatch
match_fraction sign int [] = ok (record { is_negative = sign; int_part = int; frac_part = [] })
match_fraction sign int (c ∷ s) =
    let (ds, rest) = span_digits s in
    if nat_eq c point && (not (is_empty ds) && is_empty rest)
    then ok (record { is_negative = sign; int_part = int; frac_part = ds })
    else err CurrencyFault.not_a_decimal

abbrev pub match_digits : Bool → List ℕ → Result CurrencyFault DecimalMatch
match_digits sign s =
    let (ds, rest) = span_digits s in
    if is_empty ds then err CurrencyFault.not_a_decimal else match_fraction sign ds rest

-- `/^(-)?(\d+)(?:\.(\d+))?$/`.
unfoldable pub match_decimal : List ℕ → Result CurrencyFault DecimalMatch
unfolding span_digits
match_decimal [] = err CurrencyFault.not_a_decimal
match_decimal (c ∷ s) =
    if nat_eq c minus_sign then match_digits true s else match_digits false (c ∷ s)

-- The digits of a number, as a template text writes them.
unfoldable pub digits_from : ℕ → ℕ → List ℕ
digits_from zero n = []
digits_from (suc f) n =
    let rest = digits_from f (n / 10) in
    if ltb n 10 then (digit_zero + n) ∷ [] else rest ++ ((digit_zero + n % 10) ∷ [])

unfoldable pub digits : ℕ → List ℕ
unfolding digits_from
digits n = digits_from (suc n) n

-- `Math.round(Math.log10(factor))` of a power of ten.
abbrev pub decimals_of : ℕ → ℕ
decimals_of factor = if nat_eq factor 1 then 0 else length (digits factor) - 1

unfoldable pub zeros : ℕ → List ℕ
zeros zero = []
zeros (suc n) = digit_zero ∷ zeros n

-- `padEnd(n, "0")` and `padStart(n, "0")`.
abbrev pub pad_end : List ℕ → ℕ → List ℕ
pad_end s n = s ++ zeros (n - length s)

abbrev pub pad_start : List ℕ → ℕ → List ℕ
pad_start s n = zeros (n - length s) ++ s

-- `replace(/^0+(?=\d)/, "")` of a text of digits.
unfoldable pub strip_zeros : List ℕ → List ℕ
strip_zeros [] = []
strip_zeros (c ∷ s) =
    let rest = strip_zeros s in if nat_eq c digit_zero && not (is_empty s) then rest else c ∷ s

-- `Number` of a text of digits, as far as it is safe.
unfoldable pub read_digits : ℕ → List ℕ → ℕ
read_digits n [] = n
read_digits n (c ∷ s) = read_digits (n * 10 + (c - digit_zero)) s

-- `-n`, with no zero of its own sign.
abbrev pub minus : ℕ → ℤ
minus zero = pos 0
minus (suc n) = negsuc n

unfoldable pub to_minor_units : List ℕ → String → Result CurrencyFault ℤ
unfolding trim_start trim_end match_decimal digits zeros strip_zeros read_digits
to_minor_units decimal_string currency = do
  matched ← match_decimal (trim_end (trim_start decimal_string))
  let decimals = decimals_of (minor_unit_factor currency)
  throw_if (ltb decimals (length matched.frac_part)) CurrencyFault.too_many_digits
  let combined = strip_zeros (matched.int_part ++ pad_end matched.frac_part decimals)
  let magnitude = read_digits 0 combined
  throw_if (not (leb magnitude max_safe)) CurrencyFault.out_of_range
  ok (if matched.is_negative then minus magnitude else pos magnitude)

abbrev pub sign_of : ℤ → List ℕ
sign_of (pos n) = []
sign_of (negsuc n) = minus_sign ∷ []

unfoldable pub parse_minor_units : ℤ → String → List ℕ
unfolding digits zeros
parse_minor_units minor currency =
    let factor = minor_unit_factor currency in
    let abs = pos_part minor + neg_part minor in
    if nat_eq factor 1
    then sign_of minor ++ digits abs
    else sign_of minor
      ++ (digits (abs / factor) ++ (point ∷ pad_start (digits (abs % factor)) (decimals_of factor)))

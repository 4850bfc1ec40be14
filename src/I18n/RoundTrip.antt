-- ===== src/I18n/RoundTrip.antt =====
-- packages/i18n/src/currency.ts: an amount that is written is read back.
use booking_lumin_checkout.Base.{
  ℕ, suc, ◌+◌, ◌-◌, ◌/◌, ◌%◌, ◌≤◌, ◌≡◌, refl, sym, ap, ◌∙◌, inl, inr, String, Bool, true, false,
  nat_eq, ltb, leb, List, [], ◌∷◌, ◌++◌, length, is_empty, All-append, arith, if◌then◌else◌,
}
use booking_lumin_checkout.Base.Int.{ℤ, pos, negsuc, pos_part, neg_part, max_safe, IsSafe}
use booking_lumin_checkout.Base.Result.{ok}
use booking_lumin_checkout.Contracts.Money.{minor_unit_factor, minor_unit_factor-cases}
use booking_lumin_checkout.I18n.Currency.{
  DecimalMatch, minus_sign, point, is_digit, span_digits, match_digits, match_decimal, digits,
  zeros, pad_end, pad_start, decimals_of, strip_zeros, read_digits, minus, sign_of, to_minor_units,
  parse_minor_units,
}
use booking_lumin_checkout.I18n.Digits.{
  Digits, Inked, digits-Digits, zeros-Digits, is_empty-digits, read_digits-append,
  read_digits-digits, read_digits-zeros, read_digits-strip_zeros, length-pad_start,
  read_digits-shift, span_digits-append, span_digits-all, Digits-Inked, trim-Inked,
}

-- Whether a text begins with a digit.
abbrev starts : List ℕ → Bool
starts [] = false
starts (c ∷ s) = is_digit c

starts-append : (ds s : List ℕ) → Digits ds → is_empty ds ≡ false → starts (ds ++ s) ≡ true
starts-append [] s h e = absurd (cc)
starts-append (d ∷ ds) s (p, h) e = p

starts-Digits : (ds : List ℕ) → Digits ds → is_empty ds ≡ false → starts ds ≡ true
starts-Digits [] h e = absurd (cc)
starts-Digits (d ∷ ds) (p, h) e = p

abbrev is_negative : ℤ → Bool
is_negative (pos n) = false
is_negative (negsuc n) = true

match_decimal-sign :
    (m : ℤ) (t : List ℕ)
    → starts t ≡ true
    → match_decimal (sign_of m ++ t) ≡ match_digits (is_negative m) t
unfolding match_decimal
match_decimal-sign (negsuc n) t h = refl
match_decimal-sign (pos n) [] h = absurd (cc)
match_decimal-sign (pos n) (c ∷ s) h =
    let e : nat_eq c minus_sign ≡ false = ground arith in rw e refl

match_digits-whole :
    (sign : Bool) (ds : List ℕ)
    → Digits ds
    → is_empty ds ≡ false
    → match_digits sign ds ≡ ok (record { is_negative = sign; int_part = ds; frac_part = [] })
match_digits-whole sign ds h e = rw (span_digits-all ds h, e) refl

span_digits-point : (fs : List ℕ) → span_digits (point ∷ fs) ≡ ([], point ∷ fs)
unfolding span_digits
span_digits-point fs = refl

match_digits-point :
    (sign : Bool) (ds fs : List ℕ)
    → Digits ds
    → is_empty ds ≡ false
    → Digits fs
    → is_empty fs ≡ false
    → match_digits sign (ds ++ (point ∷ fs))
      ≡ ok (record { is_negative = sign; int_part = ds; frac_part = fs })
match_digits-point sign ds fs h e k f =
    rw (span_digits-append ds (point ∷ fs) h (span_digits-point fs), e, span_digits-all fs k, f)
      refl

read_digits-pad_end :
    (int frac : List ℕ) (d : ℕ)
    → length frac ≡ d
    → read_digits 0 (int ++ pad_end frac d) ≡ read_digits 0 (int ++ frac)
unfolding zeros read_digits
read_digits-pad_end int frac d h =
    let z : d - length frac ≡ 0 = omega arith in
    rw
      (
        read_digits-append int 0 (pad_end frac d),
        read_digits-append int 0 frac,
        z,
        read_digits-append frac (read_digits 0 int) [],
      )
      refl

not_more : (a b : ℕ) → a ≡ b → ltb b a ≡ false
not_more a b h = ground arith

at_most : (a b : ℕ) → a ≤ b → leb a b ≡ true
at_most a b h = ground arith

-- A text that matches, with as many digits after the point as the currency has.
to_minor_units-matched :
    (text : List ℕ) (currency : String) (m : DecimalMatch) (n : ℕ)
    → Inked text
    → match_decimal text ≡ ok m
    → length m.frac_part ≡ decimals_of (minor_unit_factor currency)
    → read_digits 0 (m.int_part ++ m.frac_part) ≡ n
    → n ≤ max_safe
    → to_minor_units text currency ≡ ok (if m.is_negative then minus n else pos n)
unfolding to_minor_units
to_minor_units-matched text currency m n ink matched len value safe =
    let d = decimals_of (minor_unit_factor currency) in
    let few : ltb d (length m.frac_part) ≡ false = not_more _ d len in
    let total : read_digits 0 (strip_zeros (m.int_part ++ pad_end m.frac_part d)) ≡ n =
      read_digits-strip_zeros (m.int_part ++ pad_end m.frac_part d)
      ∙ (read_digits-pad_end m.int_part m.frac_part d len ∙ value) in
    let fits : leb n max_safe ≡ true = at_most n max_safe safe in
    rw (trim-Inked text ink, matched, few, total, fits) refl

signed :
    (m : ℤ)
    → (if is_negative m then minus (pos_part m + neg_part m) else pos (pos_part m + neg_part m)) ≡ m
signed (pos n) = let e : n + 0 ≡ n = omega arith in rw e refl
signed (negsuc n) = let e : 0 + suc n ≡ suc n = omega arith in rw e refl

sign_of-Inked : (m : ℤ) → Inked (sign_of m)
sign_of-Inked (pos n) = tt
sign_of-Inked (negsuc n) = (refl, tt)

safe_size : (m : ℤ) → IsSafe m → pos_part m + neg_part m ≤ max_safe
safe_size (pos n) (h, k) = omega arith
safe_size (negsuc n) (h, k) = omega arith

read_digits-none : (n : ℕ) → read_digits n [] ≡ n
unfolding read_digits
read_digits-none n = refl

decimals_of_hundred : decimals_of 100 ≡ 2
unfolding digits
decimals_of_hundred = refl

some_of_two : (s : List ℕ) → length s ≡ 2 → is_empty s ≡ false
some_of_two [] h = absurd (omega arith)
some_of_two (c ∷ s) h = refl

-- The digits of the whole units and two digits of the rest give the amount.
cents_value : (n : ℕ) → read_digits 0 (digits (n / 100) ++ pad_start (digits (n % 100)) 2) ≡ n
cents_value n =
    let frac = pad_start (digits (n % 100)) 2 in
    let e = read_digits-append (digits (n / 100)) 0 frac in
    let f = read_digits-shift (n / 100) frac (length-pad_start (n % 100) (omega arith)) in
    let g : read_digits 0 frac ≡ n % 100 =
      read_digits-zeros (2 - length (digits (n % 100))) (digits (n % 100))
      ∙ read_digits-digits (n % 100) in
    e ∙ rw (read_digits-digits (n / 100), f, g) (omega arith)

whole :
    (m : ℤ) (currency : String)
    → IsSafe m
    → minor_unit_factor currency ≡ 1
    → to_minor_units (sign_of m ++ digits (pos_part m + neg_part m)) currency ≡ ok m
whole m currency safe one =
    let n = pos_part m + neg_part m in
    let ds = digits-Digits n in
    let some' = is_empty-digits n in
    to_minor_units-matched _ currency
      (record { is_negative = is_negative m; int_part = digits n; frac_part = [] }) n
      (All-append _ (sign_of m) _ (sign_of-Inked m) (Digits-Inked _ ds))
      (match_decimal-sign m _ (starts-Digits _ ds some')
        ∙ match_digits-whole (is_negative m) _ ds some')
      (rw one refl)
      (read_digits-append (digits n) 0 []
        ∙ (read_digits-none (read_digits 0 (digits n)) ∙ read_digits-digits n))
      (safe_size m safe)
    ∙ ap (λ m. ok m) (signed m)

cents :
    (m : ℤ) (currency : String)
    → IsSafe m
    → minor_unit_factor currency ≡ 100
    → to_minor_units
        (sign_of m
          ++ (digits ((pos_part m + neg_part m) / 100)
              ++ (point ∷ pad_start (digits ((pos_part m + neg_part m) % 100)) 2)))
        currency
      ≡ ok m
cents m currency safe hundred =
    let n = pos_part m + neg_part m in
    let frac = pad_start (digits (n % 100)) 2 in
    let ds = digits-Digits (n / 100) in
    let fs : Digits frac = All-append _ _ _ (zeros-Digits _) (digits-Digits (n % 100)) in
    let two : length frac ≡ 2 = length-pad_start (n % 100) (omega arith) in
    let some' = is_empty-digits (n / 100) in
    to_minor_units-matched _ currency
      (record { is_negative = is_negative m; int_part = digits (n / 100); frac_part = frac }) n
      (All-append _ (sign_of m) _ (sign_of-Inked m)
        (All-append _ (digits (n / 100)) _ (Digits-Inked _ ds) (refl, Digits-Inked frac fs)))
      (match_decimal-sign m _ (starts-append _ (point ∷ frac) ds some')
        ∙ match_digits-point (is_negative m) _ frac ds some' fs (some_of_two frac two))
      (two ∙ sym (rw hundred decimals_of_hundred)) (cents_value n) (safe_size m safe)
    ∙ ap (λ m. ok m) (signed m)

-- An amount of minor units that is a safe integer is read back, in any currency, from the decimal text
-- that it is written as.
pub to_minor_units-parse_minor_units :
    (m : ℤ) (currency : String)
    → IsSafe m
    → to_minor_units (parse_minor_units m currency) currency ≡ ok m
unfolding parse_minor_units
to_minor_units-parse_minor_units m currency safe = elim (minor_unit_factor-cases currency) [
  | inl e ↦ rw e (whole m currency safe e)
  | inr e ↦ rw e (cents m currency safe e)
]

-- ===== src/I18n/Digits.antt =====
-- packages/i18n/src/currency.ts: the digits that are written and read.
use booking_lumin_checkout.Base.{
  ℕ, zero, suc, ◌+◌, ◌-◌, ◌*◌, ◌/◌, ◌%◌, ◌<◌, ◌≡◌, refl, inl, inr, true, false, not, ◌&&◌, nat_eq,
  ltb, List, [], ◌∷◌, ◌++◌, length, is_empty, All, All-append, All-imp, arith, Bool-cases,
}
use booking_lumin_checkout.I18n.Currency.{
  is_digit, is_space, digit_zero, trim_start, trim_end, span_digits, digits_from, digits, zeros,
  pad_start, strip_zeros, read_digits,
}

abbrev pub Digits : List ℕ → Type 0
Digits = All (λ c. is_digit c ≡ true)

digits_from-Digits : (f n : ℕ) → Digits (digits_from f n)
unfolding digits_from
digits_from-Digits zero n = tt
digits_from-Digits (suc f) n = elim (Bool-cases (ltb n 10)) [
  | inl e ↦ rw e (ground arith, tt)
  | inr e ↦ rw e (All-append _ _ _ (digits_from-Digits f (n / 10)) (ground arith, tt))
]

pub digits-Digits : (n : ℕ) → Digits (digits n)
unfolding digits
digits-Digits n = digits_from-Digits (suc n) n

pub zeros-Digits : (n : ℕ) → Digits (zeros n)
unfolding zeros
zeros-Digits zero = tt
zeros-Digits (suc n) = (refl, zeros-Digits n)

is_empty-snoc : (xs : List ℕ) (x : ℕ) → is_empty (xs ++ (x ∷ [])) ≡ false
is_empty-snoc [] x = refl
is_empty-snoc (y ∷ xs) x = refl

pub is_empty-digits : (n : ℕ) → is_empty (digits n) ≡ false
unfolding digits digits_from
is_empty-digits n = elim (Bool-cases (ltb n 10)) [
  | inl e ↦ rw e refl
  | inr e ↦ rw e (is_empty-snoc (digits_from n (n / 10)) _)
]

pub read_digits-append :
    (s : List ℕ) (n : ℕ) (t : List ℕ) → read_digits n (s ++ t) ≡ read_digits (read_digits n s) t
unfolding read_digits
read_digits-append [] n t = refl
read_digits-append (c ∷ s) n t = read_digits-append s _ t

read_digits-digits_from : (f n : ℕ) → n < f → read_digits 0 (digits_from f n) ≡ n
unfolding digits_from read_digits
read_digits-digits_from zero n h = absurd (omega arith)
read_digits-digits_from (suc f) n h = elim (Bool-cases (ltb n 10)) [
  | inl e ↦ rw e (omega arith)
  | inr e ↦
      rw
        (
          e,
          read_digits-append (digits_from f (n / 10)) 0 ((digit_zero + n % 10) ∷ []),
          read_digits-digits_from f (n / 10) (ground arith),
        )
        (omega arith)
]

pub read_digits-digits : (n : ℕ) → read_digits 0 (digits n) ≡ n
unfolding digits
read_digits-digits n = read_digits-digits_from (suc n) n (omega arith)

-- Zeros in front change nothing.
pub read_digits-zeros : (n : ℕ) (s : List ℕ) → read_digits 0 (zeros n ++ s) ≡ read_digits 0 s
unfolding zeros read_digits
read_digits-zeros zero s = refl
read_digits-zeros (suc n) s = read_digits-zeros n s

pub read_digits-strip_zeros : (s : List ℕ) → read_digits 0 (strip_zeros s) ≡ read_digits 0 s
unfolding strip_zeros read_digits
read_digits-strip_zeros [] = refl
read_digits-strip_zeros (c ∷ s) = elim (Bool-cases (nat_eq c digit_zero && not (is_empty s))) [
  | inl e ↦ let z : c - digit_zero ≡ 0 = ground arith in rw (e, z) (read_digits-strip_zeros s)
  | inr e ↦ rw e refl
]

-- A number below a hundred has one or two digits, so two after the zeros in front.
pub length-pad_start : (n : ℕ) → n < 100 → length (pad_start (digits n) 2) ≡ 2
unfolding digits digits_from zeros
length-pad_start zero h = refl
length-pad_start (suc n) h = elim (Bool-cases (ltb (suc n) 10)) [
  | inl e ↦ rw e refl
  | inr e ↦ let f : ltb (suc n / 10) 10 ≡ true = ground arith in rw (e, f) refl
]

-- Reading from the left: a number that was read takes its place value.
pub read_digits-shift :
    (n : ℕ) (s : List ℕ) → length s ≡ 2 → read_digits n s ≡ n * 100 + read_digits 0 s
unfolding read_digits
read_digits-shift n [] h = absurd (omega arith)
read_digits-shift n (a ∷ []) h = absurd (omega arith)
read_digits-shift n (a ∷ (b ∷ [])) h = omega arith
read_digits-shift n (a ∷ (b ∷ (c ∷ s))) h = absurd (omega arith)

pub span_digits-append :
    (ds s : List ℕ) → Digits ds → span_digits s ≡ ([], s) → span_digits (ds ++ s) ≡ (ds, s)
unfolding span_digits
span_digits-append [] s h e = e
span_digits-append (d ∷ ds) s (p, h) e = rw (span_digits-append ds s h e, p) refl

pub span_digits-all : (ds : List ℕ) → Digits ds → span_digits ds ≡ (ds, [])
unfolding span_digits
span_digits-all [] h = refl
span_digits-all (d ∷ ds) (p, h) = rw (span_digits-all ds h, p) refl

abbrev pub Inked : List ℕ → Type 0
Inked = All (λ c. is_space c ≡ false)

digit_inked : (c : ℕ) → is_digit c ≡ true → is_space c ≡ false
digit_inked c h = ground arith

pub Digits-Inked : (s : List ℕ) → Digits s → Inked s
Digits-Inked s h = All-imp _ _ s digit_inked h

trim_start-Inked : (s : List ℕ) → Inked s → trim_start s ≡ s
unfolding trim_start
trim_start-Inked [] h = refl
trim_start-Inked (c ∷ s) (p, h) = rw p refl

trim_end-Inked : (s : List ℕ) → Inked s → trim_end s ≡ s
unfolding trim_end
trim_end-Inked [] h = refl
trim_end-Inked (c ∷ s) (p, h) = elim (Bool-cases (is_empty s)) [
  | inl e ↦ rw (trim_end-Inked s h, p, e) refl
  | inr e ↦ rw (trim_end-Inked s h, p, e) refl
]

-- A text with no white space is not trimmed.
pub trim-Inked : (s : List ℕ) → Inked s → trim_end (trim_start s) ≡ s
trim-Inked s h = rw (trim_start-Inked s h) (trim_end-Inked s h)

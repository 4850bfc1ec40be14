-- ===== src/Events/Replay.antt =====
-- packages/events/src/signature.ts: what `verifySignature` answers on a header that was built.
use booking_lumin_checkout.Base.{
  ℕ, ◌≡◌, refl, ap, ◌∙◌, Bool, true, false, ◌&&◌, ◌||◌, nat_eq, leb, ltb, ◌*◌, Option, some, [],
  ◌∷◌, ◌++◌, All, All-imp, arith, is_empty, or_else, if◌then◌else◌,
}
use booking_lumin_checkout.Base.Int.{ℤ, pos, *ℤ-one, floor_div}
use booking_lumin_checkout.Availability.Dates.{text_eq}
use booking_lumin_checkout.I18n.Currency.{is_digit, digits, trim_start, trim_end}
use booking_lumin_checkout.I18n.Digits.{Inked, digits-Digits, Digits-Inked, trim-Inked}
use booking_lumin_checkout.Events.Verify.{
  CodeUnits, Timestamps, whole, distance, is_skewed, split_commas, cut_equals, signed_units,
  build_header, default_skew_seconds, parse_signature_header, verify_signature,
}

-- A digit of a number in base 16, in lower case.
abbrev pub is_hex : ℕ → Bool
is_hex c = is_digit c || (leb 97 c && leb c 102)

abbrev pub Hex : CodeUnits → Type 0
Hex = All (λ c. is_hex c ≡ true)

-- Texts with no comma.
abbrev Whole : CodeUnits → Type 0
Whole = All (λ c. nat_eq c 44 ≡ false)

split_commas-Whole : (s : CodeUnits) → Whole s → split_commas s ≡ s ∷ []
unfolding split_commas
split_commas-Whole [] h = refl
split_commas-Whole (c ∷ s) (p, h) = rw (split_commas-Whole s h, p) refl

split_commas-append :
    (s r : CodeUnits) → Whole s → split_commas (s ++ (44 ∷ r)) ≡ s ∷ split_commas r
unfolding split_commas
split_commas-append [] r h = refl
split_commas-append (c ∷ s) r (p, h) = rw (split_commas-append s r h, p) refl

Hex-Whole : (s : CodeUnits) → Hex s → Whole s
Hex-Whole s h = All-imp _ _ s (λ c e. ground arith) h

Hex-Inked : (s : CodeUnits) → Hex s → Inked s
Hex-Inked s h = All-imp _ _ s (λ c e. ground arith) h

digits-Whole : (n : ℕ) → Whole (digits n)
digits-Whole n = All-imp _ _ (digits n) (λ c e. ground arith) (digits-Digits n)

-- The text after `t=`, and the one after `v1=`.
header-split :
    (hmac : CodeUnits → CodeUnits → CodeUnits) (body secret : CodeUnits) (ts : ℕ)
    → Hex (hmac secret (signed_units (digits ts) body))
    → split_commas (build_header hmac body secret ts)
      ≡ (116 ∷ (61 ∷ digits ts))
        ∷ ((118 ∷ (49 ∷ (61 ∷ hmac secret (signed_units (digits ts) body)))) ∷ [])
unfolding build_header
header-split hmac body secret ts h =
    let signature = hmac secret (signed_units (digits ts) body) in
    let given : CodeUnits = 118 ∷ (49 ∷ (61 ∷ signature)) in
    let at : CodeUnits = 116 ∷ (61 ∷ digits ts) in
    split_commas-append at given (refl, (refl, digits-Whole ts))
    ∙ ap (λ parts. at ∷ parts)
        (split_commas-Whole given (refl, (refl, (refl, Hex-Whole signature h))))

build_header_filled :
    (hmac : CodeUnits → CodeUnits → CodeUnits) (body secret : CodeUnits) (ts : ℕ)
    → is_empty (build_header hmac body secret ts) ≡ false
unfolding build_header
build_header_filled hmac body secret ts = refl

is_skewed-whole :
    (now : ℤ) (ts skew : ℕ) → is_skewed now (whole ts) skew ≡ ltb skew (distance now (pos ts))
unfolding is_skewed
is_skewed-whole now ts skew = let one : skew * 1 ≡ skew = omega arith in rw (*ℤ-one now, one) refl

late_or_other :
    (d skew : ℕ) (m : Bool) → (if ltb skew d then false else m || false) ≡ (leb d skew && m)
late_or_other d skew m = ground arith

module _ (times : Timestamps) where
  open times use {number, shown}

  parse-build :
      (hmac : CodeUnits → CodeUnits → CodeUnits) (body secret : CodeUnits) (ts : ℕ)
      → Hex (hmac secret (signed_units (digits ts) body))
      → parse_signature_header times (build_header hmac body secret ts)
        ≡ record { t = number (digits ts); v1 = hmac secret (signed_units (digits ts) body) ∷ [] }
  unfolding parse_signature_header cut_equals text_eq trim_start trim_end
  parse-build hmac body secret ts h =
      let signature = hmac secret (signed_units (digits ts) body) in
      rw
        (
          header-split hmac body secret ts h,
          trim-Inked (digits ts) (Digits-Inked (digits ts) (digits-Digits ts)),
          trim-Inked signature (Hex-Inked signature h),
        )
        refl

  -- Whatever body and secret a header is checked against: a header that was built at the second `ts`
  -- is accepted exactly when the clock's second is at most the tolerance away from `ts` and the HMAC
  -- that it was signed with is the one of the body and secret at hand; so the right body and secret
  -- are accepted inside the window and nothing is outside of it, and another body or secret only where
  -- the HMACs agree. A HMAC must be written in hexadecimal digits, and `Number` must read the digits of
  -- `ts` as `ts`, which a template must write with these digits.
  pub verify_signature-build :
      (hmac : CodeUnits → CodeUnits → CodeUnits) (body secret body' secret' : CodeUnits) (ts : ℕ)
      (now_ms : ℤ) (skew_seconds : Option ℕ)
      → Hex (hmac secret (signed_units (digits ts) body))
      → number (digits ts) ≡ some (whole ts)
      → shown (whole ts) ≡ digits ts
      → verify_signature times hmac body'
          (some (build_header hmac body secret ts))
          secret'
          now_ms
          skew_seconds
        ≡ (leb
              (distance (floor_div now_ms 1000) (pos ts))
              (or_else skew_seconds default_skew_seconds)
            && text_eq
                (hmac secret (signed_units (digits ts) body))
                (hmac secret' (signed_units (digits ts) body')))
  unfolding verify_signature
  verify_signature-build hmac body secret body' secret' ts now_ms skew_seconds h reads shows =
      rw
        (
          build_header_filled hmac body secret ts,
          parse-build hmac body secret ts h,
          reads,
          shows,
          is_skewed-whole (floor_div now_ms 1000) ts (or_else skew_seconds default_skew_seconds),
        )
        (late_or_other (distance (floor_div now_ms 1000) (pos ts))
          (or_else skew_seconds default_skew_seconds) _)

-- ===== src/Events/Verify.antt =====
-- packages/events/src/signature.ts: `parseSignatureHeader` and `verifySignature`, on texts as lists of
-- code units. The HMAC of node:crypto is a parameter, `hmac secret message`.
use booking_lumin_checkout.Base.{
  ℕ, ◌+◌, ◌*◌, ◌^◌, Bool, false, nat_eq, ltb, Option, none, some, List, [], ◌∷◌, ◌++◌, any,
  is_empty, or_else, if◌then◌else◌,
}
use booking_lumin_checkout.Base.Int.{ℤ, pos, pos_part, neg_part, ◌-ℤ◌, ◌*ℤ◌, floor_div}
use booking_lumin_checkout.Availability.Dates.{text_eq}
use booking_lumin_checkout.I18n.Currency.{trim_start, trim_end, digits}

abbrev pub CodeUnits : Type 0
CodeUnits = List ℕ

-- A finite number of JavaScript: `numerator` / 2 ^ `shift`.
pub record Stamp : Type 0 where
  pub numerator : ℤ
  pub shift : ℕ

-- JavaScript's own functions on numbers: `number` is `Number(text)`, with `none` for NaN and the
-- infinities, and `shown` is the text in a template.
pub record Timestamps : Type 0 where
  pub number : CodeUnits → Option Stamp
  pub shown : Stamp → CodeUnits

abbrev pub whole : ℕ → Stamp
whole n = record { numerator = pos n; shift = 0 }

-- `Math.abs(a - b)`.
abbrev pub distance : ℤ → ℤ → ℕ
distance a b = pos_part (a -ℤ b) + neg_part (a -ℤ b)

-- `Math.abs(nowSec - t) > skew`, both sides times the denominator of `t`.
unfoldable pub is_skewed : ℤ → Stamp → ℕ → Bool
is_skewed now_sec t skew =
    ltb (skew * 2 ^ t.shift) (distance (now_sec *ℤ pos (2 ^ t.shift)) t.numerator)

-- `split(",")`, at the code unit 44.
abbrev prefixed : ℕ → List CodeUnits → List CodeUnits
prefixed c [] = (c ∷ []) ∷ []
prefixed c (part ∷ parts) = (c ∷ part) ∷ parts

unfoldable pub split_commas : CodeUnits → List CodeUnits
split_commas [] = [] ∷ []
split_commas (c ∷ s) =
    let rest = split_commas s in if nat_eq c 44 then [] ∷ rest else prefixed c rest

-- The parts before and after the first `=`, the code unit 61.
abbrev longer : ℕ → Option (CodeUnits × CodeUnits) → Option (CodeUnits × CodeUnits)
longer c none = none
longer c (some (key, value)) = some (c ∷ key, value)

unfoldable pub cut_equals : CodeUnits → Option (CodeUnits × CodeUnits)
cut_equals [] = none
cut_equals (c ∷ s) = let rest = cut_equals s in if nat_eq c 61 then some ([], s) else longer c rest

abbrev pub trim : CodeUnits → CodeUnits
trim s = trim_end (trim_start s)

-- `${t}.${body}`.
abbrev pub signed_units : CodeUnits → CodeUnits → CodeUnits
signed_units t body = t ++ (46 ∷ body)

-- `t=${ts},v1=${signature}`.
unfoldable pub build_header :
    (CodeUnits → CodeUnits → CodeUnits) → CodeUnits → CodeUnits → ℕ → CodeUnits
build_header hmac body secret ts =
    116
    ∷ (61 ∷ (digits ts ++ (44 ∷ (118 ∷ (49 ∷ (61 ∷ hmac secret (signed_units (digits ts) body)))))))

abbrev pub default_skew_seconds : ℕ
default_skew_seconds = 300

module _ (times : Timestamps) where
  open times use {number, shown}

  pub record ParsedHeader : Type 0 where
    pub t : Option Stamp
    pub v1 : List CodeUnits

  -- One part of the header.
  unfoldable pub parse_part : Option (CodeUnits × CodeUnits) → ParsedHeader → ParsedHeader
  parse_part none p = p
  parse_part (some (key, value)) p =
      if text_eq (trim key) (116 ∷ [])
      then record p { t = number (trim value) }
      else if text_eq (trim key) (118 ∷ (49 ∷ []))
      then record p { v1 = p.v1 ++ (trim value ∷ []) }
      else p

  unfoldable pub parse_parts : List CodeUnits → ParsedHeader → ParsedHeader
  unfolding parse_part
  parse_parts [] p = p
  parse_parts (part ∷ parts) p = parse_parts parts (parse_part (cut_equals part) p)

  unfoldable pub parse_signature_header : CodeUnits → ParsedHeader
  unfolding parse_parts
  parse_signature_header header = parse_parts (split_commas header) (record { t = none; v1 = [] })

  unfoldable pub matches_at :
      (CodeUnits → CodeUnits → CodeUnits)
      → CodeUnits
      → CodeUnits
      → ℤ
      → ℕ
      → List CodeUnits
      → Option Stamp
      → Bool
  unfolding is_skewed
  matches_at hmac body secret now_ms skew v1 none = false
  matches_at hmac body secret now_ms skew v1 (some t) =
      if is_empty v1
      then false
      else if is_skewed (floor_div now_ms 1000) t skew
      then false
      else any (λ candidate. text_eq candidate (hmac secret (signed_units (shown t) body))) v1

  unfoldable pub verify_signature :
      (CodeUnits → CodeUnits → CodeUnits)
      → CodeUnits
      → Option CodeUnits
      → CodeUnits
      → ℤ
      → Option ℕ
      → Bool
  unfolding matches_at
  verify_signature hmac body none secret now_ms skew_seconds = false
  verify_signature hmac body (some header) secret now_ms skew_seconds =
      let parsed = parse_signature_header header in
      if is_empty header
      then false
      else matches_at hmac body secret now_ms (or_else skew_seconds default_skew_seconds) parsed.v1
          parsed.t

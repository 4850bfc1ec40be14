-- ===== src/Booking/References.antt =====
-- packages/core/src/booking.ts: booking references, `tinyHash`, `crockford6` and `newReference`.
use booking_lumin_checkout.Base.{
  ℕ, zero, suc, ◌+◌, ◌*◌, ◌/◌, ◌%◌, ◌^◌, ◌<◌, ◌≡◌, String, Bool, false, ◌==◌, Option, none, some,
  List, [], ◌∷◌, arith, get_elem?, or_else, any, if◌then◌else◌, inl, inr, Bool-cases, refl, ap, ◌∙◌,
  All, any_none,
}
use mathlib.Core.List.{Memᴰ}
use booking_lumin_checkout.Base.Members.{any-member}
use booking_lumin_checkout.Base.Decimal.{decimal}
use Prim.Native.Char.{code}
use Prim.Native.String

-- The code units of a text, for texts of the basic plane.
abbrev pub codes : String → List ℕ
codes String.[] = []
codes (String.◌∷◌ c s) = code c ∷ codes s

abbrev crockford : List String
crockford =
    "0" ∷ "1" ∷ "2" ∷ "3" ∷ "4" ∷ "5" ∷ "6" ∷ "7" ∷ "8" ∷ "9" ∷ "A" ∷ "B" ∷ "C" ∷ "D" ∷ "E" ∷ "F"
    ∷ "G" ∷ "H" ∷ "J" ∷ "K" ∷ "M" ∷ "N" ∷ "P" ∷ "Q" ∷ "R" ∷ "S" ∷ "T" ∷ "V" ∷ "W" ∷ "X" ∷ "Y" ∷ "Z"
    ∷ []

-- `(Math.imul(h, 33) + c) >>> 0`: arithmetic mod 2^32.
unfoldable pub hash_from : ℕ → List ℕ → ℕ
hash_from h [] = h
hash_from h (c ∷ cs) = hash_from ((h * 33 + c) % 2 ^ 32) cs

unfoldable pub tiny_hash : String → ℕ
unfolding hash_from
tiny_hash s = hash_from 5381 (codes s)

-- `CROCKFORD[(n >>> (i * 5)) & 31]`, for `count` digits from the `i`-th on.
unfoldable pub crockford_digits : ℕ → ℕ → ℕ → String
crockford_digits zero n i = ""
crockford_digits (suc count) n i =
    String.◌++◌ (or_else (get_elem? crockford (n / 2 ^ (i * 5) % 32)) "undefined")
      (crockford_digits count n (i + 1))

unfoldable pub crockford6 : String → String
unfolding tiny_hash crockford_digits
crockford6 seed = crockford_digits 6 (tiny_hash seed) 0

unfoldable pub reference_at : String → ℕ → String
unfolding crockford6 decimal
reference_at seed attempt =
    String.◌++◌ "LMN-" (crockford6 (String.◌++◌ seed (String.◌++◌ ":" (decimal attempt))))

abbrev pub taken : List String → String → Bool
taken references ref = any (λ r. r == ref) references

-- `newReference` from an attempt on; `none` where the fuel runs out, as the source would search on.
unfoldable pub new_reference : ℕ → List String → String → ℕ → Option String
new_reference zero references seed attempt = none
new_reference (suc f) references seed attempt =
    let rest = new_reference f references seed (attempt + 1) in
    if taken references (reference_at seed attempt) then rest else some (reference_at seed attempt)

-- A reference that is found is none of those given out before.
pub new_reference-fresh :
    (f : ℕ) (references : List String) (seed : String) (attempt : ℕ) {ref : String}
    → new_reference f references seed attempt ≡ some ref
    → taken references ref ≡ false
unfolding new_reference
new_reference-fresh zero references seed attempt h = absurd (cc)
new_reference-fresh (suc f) references seed attempt h =
    elim (Bool-cases (taken references (reference_at seed attempt))) [
      | inl e ↦ new_reference-fresh f references seed (attempt + 1) (rw (e, new_reference) at h)
      | inr e ↦ ground arith
    ]

-- The reference of attempt `attempt + n` is free, and those of the attempts before are taken.
abbrev pub IsFirstFree : List String → String → ℕ → ℕ → Type 0
IsFirstFree references seed attempt zero =
    All (λ r. (r == reference_at seed attempt) ≡ false) references
IsFirstFree references seed attempt (suc n) =
    Memᴰ (reference_at seed attempt) references × IsFirstFree references seed (attempt + 1) n

-- Fuel above the number of an attempt whose reference is free is enough for the search to end; what it
-- gives is the first reference that is none of those given out: those of all the attempts before are
-- among them.
pub new_reference_total :
    (f : ℕ) (references : List String) (seed : String) (attempt free : ℕ)
    → free < f
    → taken references (reference_at seed (attempt + free)) ≡ false
    → (n : ℕ) × (new_reference f references seed attempt ≡ some (reference_at seed (attempt + n)))
      × IsFirstFree references seed attempt n
unfolding new_reference
new_reference_total zero references seed attempt free h e = absurd (omega arith)
new_reference_total (suc f) references seed attempt zero h e =
    let same : attempt + 0 ≡ attempt = omega arith in
    let free = rw same at e in (0, rw (free, same) refl, any_none _ references free)
new_reference_total (suc f) references seed attempt (suc free) h e =
    elim (Bool-cases (taken references (reference_at seed attempt))) [
      | inr g ↦
          let same : attempt + 0 ≡ attempt = omega arith in
          (0, rw (g, same) refl, any_none _ references g)
      | inl t ↦
          let there : attempt + suc free ≡ attempt + 1 + free = omega arith in
          let (n, found, first) =
            new_reference_total f references seed (attempt + 1) free (omega arith)
              (rw there at e) in
          let same : attempt + 1 + n ≡ attempt + suc n = omega arith in
          (
            suc n,
            rw t (found ∙ ap (λ k. some (reference_at seed k)) same),
            (any-member references _ t, first),
          )
    ]

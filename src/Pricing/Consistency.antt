-- ===== src/Pricing/Consistency.antt =====
-- What holds of every price that packages/core/src/pricing.ts returns.
use booking_lumin_checkout.Base.{
  ℕ, ◌+◌, ◌*◌, ◌≤◌, ◌<◌, ◌≡◌, refl, sym, ap, subst, ◌∙◌, if◌then◌else◌, String, some, List, [], ◌∷◌,
  ◌++◌, arith, inl, inr, Bool-cases, Option-cases,
}
use mathlib.Core.Option.{some-injective}
use booking_lumin_checkout.Base.Int.{
  ℤ, pos, negsuc, +ℤ-pos, *ℤ-pos, floor_div, pos_part, neg_part, ltb_ℤ, eq_ℤ, ◌+ℤ◌, ◌*ℤ◌, ◌≤ℤ◌,
  IsSafe, int_laws, zero-+ℤ, +ℤ_assoc, *ℤ-one, +ℤ-zero, +ℤ-sub, eq_ℤ_iff,
}
use booking_lumin_checkout.Base.Result.{ok, >>=-elim, throw_if-elim, ok-injective}
use booking_lumin_checkout.Contracts.Service.{Service, Selection, PriceLine, PriceBreakdown}
use booking_lumin_checkout.Pricing.{additive, price}
use booking_lumin_checkout.Pricing.Rounding.{Doubles, round_bp}
use booking_lumin_checkout.Pricing.Lines.{line}
use booking_lumin_checkout.Pricing.Questions.{Multiplier}
use booking_lumin_checkout.Pricing.Totals.{
  assert_safe, sum_lines, scaled, apply_multipliers, finish,
}

-- The sum of amount times quantity.
pub lines_total : List PriceLine → ℤ
lines_total [] = pos 0
lines_total (l ∷ ls) = l.amount.amount *ℤ l.quantity +ℤ lines_total ls

pub lines_total-append :
    (xs ys : List PriceLine) → lines_total (xs ++ ys) ≡ lines_total xs +ℤ lines_total ys
unfolding lines_total
lines_total-append [] ys = sym (zero-+ℤ _)
lines_total-append (x ∷ xs) ys =
    omega (int_laws, ap pos_part (lines_total-append xs ys), ap neg_part (lines_total-append xs ys))

assert_safe-eq-ok : (n : ℤ) → assert_safe n ≡ ok tt → IsSafe n
unfolding assert_safe
assert_safe-eq-ok n h = ground arith

sum_lines_lem :
    (acc : ℤ) (ls : List PriceLine) {r : ℤ} → sum_lines acc ls ≡ ok r → acc +ℤ lines_total ls ≡ r
unfolding sum_lines lines_total
sum_lines_lem acc [] h = rw +ℤ-zero (ok-injective h)
sum_lines_lem acc (l ∷ ls) h = >>=-elim (assert_safe (l.amount.amount *ℤ l.quantity)) _ h λ _ _ h1.
    >>=-elim (assert_safe (acc +ℤ l.amount.amount *ℤ l.quantity)) _ h1
      λ _ _ h2. sym (+ℤ_assoc acc _ _) ∙ sum_lines_lem (acc +ℤ l.amount.amount *ℤ l.quantity) ls h2

-- The line of a multiplier, left out where it is zero, carries the difference.
delta_line :
    (d : ℤ) (code label currency : String) (ls : List PriceLine)
    → lines_total (if eq_ℤ d (pos 0) then ls else line code label d currency (pos 1) ∷ ls)
      ≡ d +ℤ lines_total ls
unfolding lines_total
delta_line d code label currency ls = elim (Bool-cases (eq_ℤ d (pos 0))) [
  | inl z ↦ rw (z, (eq_ℤ_iff d (pos 0)).0 z) (sym (zero-+ℤ _))
  | inr n ↦ rw (n, *ℤ-one)
]

module _ (doubles : Doubles) where
  pub scaled-elim {ν} :
      {P : Type ν} (n : ℤ) (bp : ℕ) {r : ℤ}
      → scaled doubles n bp ≡ ok r
      → (doubles.scale n bp ≡ some r → IsSafe r → P)
      → P
  unfolding scaled
  scaled-elim n bp {r} h k = elim (Option-cases (doubles.scale n bp)) [
    | inl e ↦ absurd (ground arith)
    | inr (next, e) ↦
        >>=-elim (assert_safe next) (λ _. ok next) (rw (e, scaled) at h)
          λ _ safe same.
            let same' = ok-injective same in
            k (e ∙ ap some same') (subst IsSafe same' (assert_safe-eq-ok next safe))
  ]

  -- The lines that the multipliers add lead from the subtotal before them to the one after them.
  apply_multipliers_lem :
      (currency : String) (s : ℤ) (ms : List Multiplier) {r : List PriceLine × ℤ}
      → apply_multipliers doubles currency s ms ≡ ok r
      → s +ℤ lines_total r.0 ≡ r.1
  unfolding apply_multipliers lines_total
  apply_multipliers_lem currency s [] h = rw (← ok-injective h) (+ℤ-zero s)
  apply_multipliers_lem currency s (m ∷ ms) {r} h =
      >>=-elim (scaled doubles s m.bp) _ h λ next _ h1.
        >>=-elim (apply_multipliers doubles currency next ms) _ h1 λ rest found h2.
          rw (← ok-injective h2)
            (rw (delta_line, ← +ℤ_assoc, +ℤ-sub) (apply_multipliers_lem currency next ms found))

  -- The sums of a breakdown: its lines add up to the subtotal, the total is the subtotal and the
  -- tax, and the amounts are whole numbers that a double holds, none of them negative.
  pub record IsConsistent (service : Service) (b : PriceBreakdown) : Type 0 where
    pub lines_sum : lines_total b.lines ≡ b.subtotal.amount
    pub total_sum : b.total.amount ≡ b.subtotal.amount +ℤ b.tax.amount
    pub subtotal_nonneg : pos 0 ≤ℤ b.subtotal.amount
    pub total_nonneg : pos 0 ≤ℤ b.total.amount
    pub total_safe : IsSafe b.total.amount
    pub tax_safe : IsSafe b.tax.amount
    pub tax_scaled : doubles.scale b.subtotal.amount service.tax_rate_bp ≡ some b.tax.amount

  finish-IsConsistent :
      (service : Service) (lines : List PriceLine) (ms : List Multiplier) (deposit start : ℤ)
      {b : PriceBreakdown}
      → lines_total lines ≡ start
      → finish doubles service lines ms deposit start ≡ ok b
      → IsConsistent service b
  unfolding finish
  finish-IsConsistent service lines ms deposit start sum h =
      >>=-elim (apply_multipliers doubles service.currency start ms) _ h λ r applied h1.
        throw_if-elim (ltb_ℤ r.1 (pos 0)) _ _ h1 λ nonneg h2.
          >>=-elim (scaled doubles r.1 service.tax_rate_bp) _ h2 λ tax taxed h3.
            >>=-elim (assert_safe (r.1 +ℤ tax)) _ h3 λ _ safe h4.
              throw_if-elim (ltb_ℤ (r.1 +ℤ tax) (pos 0)) _ _ h4 λ nonneg' h5.
                scaled-elim r.1 service.tax_rate_bp taxed λ scale tax_safe.
                  subst (IsConsistent service) (ok-injective h5) (record {
                    lines_sum =
                        rw (lines_total-append, sum)
                          (apply_multipliers_lem service.currency start ms applied);
                    total_sum = refl;
                    subtotal_nonneg = ground arith;
                    total_nonneg = ground arith;
                    total_safe = assert_safe-eq-ok (r.1 +ℤ tax) safe;
                    tax_safe = tax_safe;
                    tax_scaled = scale;
                  })

-- A price that is returned is consistent: its lines, the multipliers' included, add up to the
-- subtotal, the total is the subtotal and the tax, the tax is the scaled subtotal, subtotal and
-- total are not negative, and tax and total are safe integers.
pub price-IsConsistent :
    (doubles : Doubles) (service : Service) (selection : Selection) {b : PriceBreakdown}
    → price doubles service selection ≡ ok b
    → IsConsistent doubles service b
unfolding price
price-IsConsistent doubles service selection h =
    >>=-elim (additive service selection) _ h λ parts _ h1.
      >>=-elim (sum_lines (pos 0) parts.lines) _ h1 λ start summed h2.
        finish-IsConsistent doubles service parts.lines parts.multipliers parts.deposit start
          (sym (zero-+ℤ _) ∙ sum_lines_lem (pos 0) parts.lines summed) h2

round_bp_nearest :
    (n : ℤ) (bp : ℕ)
    → pos 0 ≤ℤ n
    → (round_bp n bp ≡ pos (pos_part (round_bp n bp)))
      × (pos_part (round_bp n bp) * 10_000 ≤ pos_part n * bp + 5000)
      × (pos_part n * bp < pos_part (round_bp n bp) * 10_000 + 5000)
unfolding round_bp floor_div
round_bp_nearest (pos n) bp h = rw (*ℤ-pos, +ℤ-pos) (refl, omega arith, omega arith)
round_bp_nearest (negsuc n) bp h = absurd (omega arith)

-- While the product of the subtotal and the tax rate is a safe integer, the tax of a price is the
-- subtotal's share in basis points to the nearest minor unit, a tie going up.
pub price-tax_nearest :
    (doubles : Doubles) (service : Service) (selection : Selection) {b : PriceBreakdown}
    → price doubles service selection ≡ ok b
    → IsSafe (b.subtotal.amount *ℤ pos service.tax_rate_bp)
    → (b.tax.amount ≡ pos (pos_part b.tax.amount))
      × (pos_part b.tax.amount * 10_000 ≤ pos_part b.subtotal.amount * service.tax_rate_bp + 5000)
      × (pos_part b.subtotal.amount * service.tax_rate_bp < pos_part b.tax.amount * 10_000 + 5000)
price-tax_nearest doubles service selection {b} h safe =
    let c = price-IsConsistent doubles service selection h in
    let e : round_bp b.subtotal.amount service.tax_rate_bp ≡ b.tax.amount =
      some-injective _ _ (sym (doubles.scale_exact _ _ safe) ∙ c.tax_scaled) in
    subst
      (λ t.
        (t ≡ pos (pos_part t))
        × (pos_part t * 10_000 ≤ pos_part b.subtotal.amount * service.tax_rate_bp + 5000)
        × (pos_part b.subtotal.amount * service.tax_rate_bp < pos_part t * 10_000 + 5000))
      e (round_bp_nearest b.subtotal.amount service.tax_rate_bp c.subtotal_nonneg)

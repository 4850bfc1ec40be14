-- ===== src/Contracts/Money.antt =====
-- packages/contracts/src/money.ts: whole minor units with an explicit currency.
use booking_lumin_checkout.Base.{
  ℕ, ◌≡◌, String, List, [], ◌∷◌, any, ◌==◌, if◌then◌else◌, arith, eq_iff, not, refl, inl, inr, ◌⊎◌,
  Bool-cases,
}
use booking_lumin_checkout.Base.Int.{ℤ, ◌+ℤ◌}
use booking_lumin_checkout.Base.Result.{Result, ok, err}

pub record Money : Type 0 where
  pub amount : ℤ
  pub currency : String

pub data MoneyError : Type 0 where
  currency_mismatch : String → String → MoneyError

abbrev pub money : ℤ → String → Money
money amount currency = record { amount = amount; currency = currency }

unfoldable pub add_money : Money → Money → Result MoneyError Money
add_money a b =
    if not (a.currency == b.currency)
    then err (currency_mismatch a.currency b.currency)
    else ok (money (a.amount +ℤ b.amount) a.currency)

abbrev zero_decimal : List String
zero_decimal = "JPY" ∷ "KRW" ∷ "VND" ∷ "CLP" ∷ "ISK" ∷ "UGX" ∷ "XAF" ∷ "XOF" ∷ "XPF" ∷ []

abbrev pub minor_unit_factor : String → ℕ
minor_unit_factor currency = if any (λ c. c == currency) zero_decimal then 1 else 100

-- Amounts of one currency are added.
pub add_money_same :
    (a b : Money)
    → a.currency ≡ b.currency
    → add_money a b ≡ ok (money (a.amount +ℤ b.amount) a.currency)
unfolding add_money
add_money_same a b h = ground (arith, eq_iff a.currency b.currency)

-- A currency has a hundred minor units, or none smaller.
pub minor_unit_factor-cases :
    (currency : String) → (minor_unit_factor currency ≡ 1) ⊎ (minor_unit_factor currency ≡ 100)
minor_unit_factor-cases currency = elim (Bool-cases (any (λ c. c == currency) zero_decimal)) [
  | inl e ↦ inl (rw e refl)
  | inr e ↦ inr (rw e refl)
]

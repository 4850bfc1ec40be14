-- ===== src/Workflow/Conditions.antt =====
-- packages/workflow/src/conditions.ts and the conditions of types.ts. Numbers are whole. An operator
-- that the evaluator does not know throws.
use booking_lumin_checkout.Base.{
  String, Bool, true, false, not, ◌&&◌, ◌==◌, Option, none, some, List, [], ◌∷◌, any, is_some,
  is_empty,
}
use package.text.Mathlib.Text.{find?}
use booking_lumin_checkout.Base.Int.{ℤ, eq_ℤ, ltb_ℤ, leb_ℤ}
use booking_lumin_checkout.Base.Dict.{Dict, get}
use booking_lumin_checkout.Base.Result.{Result, ok, err, ◌>>=◌}

-- What stands in an array of answers or operands.
pub data Scalar : Type 0 where
  text : String → Scalar
  number : ℤ → Scalar
  truth : Bool → Scalar

-- An answer, or an operand.
pub data Value : Type 0 where
  scalar : Scalar → Value
  many : List Scalar → Value
  null : Value

abbrev pub Answers : Type 0
Answers = Dict Value

pub data ConditionOp : Type 0 where
  eq ne in_list gt gte lt lte answered includes : ConditionOp
  unknown : String → ConditionOp

pub record Comparison : Type 0 where
  pub field : String
  pub op : ConditionOp
  pub value : Option Value

mutual
  pub data Condition : Type 0 where
    compare : Comparison → Condition
    all_of : Conditions → Condition
    any_of : Conditions → Condition
    negate : Condition → Condition

  pub data Conditions : Type 0 where
    nil : Conditions
    cons : Condition → Conditions → Conditions

pub data Fault : Type 0 where
  unknown_operator : String → Fault

abbrev pub bool_eq : Bool → Bool → Bool
bool_eq true b = b
bool_eq false b = not b

abbrev pub scalar_eq : Scalar → Scalar → Bool
scalar_eq (text a) (text b) = a == b
scalar_eq (number a) (number b) = eq_ℤ a b
scalar_eq (truth a) (truth b) = bool_eq a b
scalar_eq _ _ = false

unfoldable pub scalars_eq : List Scalar → List Scalar → Bool
scalars_eq [] [] = true
scalars_eq (a ∷ as') (b ∷ bs) = scalar_eq a b && scalars_eq as' bs
scalars_eq _ _ = false

unfoldable pub deep_equal : Value → Value → Bool
unfolding scalars_eq
deep_equal (scalar a) (scalar b) = scalar_eq a b
deep_equal (many as') (many bs) = scalars_eq as' bs
deep_equal null null = true
deep_equal _ _ = false

-- `isAnswered`, of a value that may be missing.
unfoldable pub is_answered : Option Value → Bool
is_answered none = false
is_answered (some null) = false
is_answered (some (scalar (text s))) = not (s == "")
is_answered (some (many vs)) = not (is_empty vs)
is_answered (some _) = true

-- The operand as it is given; a missing one equals no value that is present.
unfoldable pub equals : Value → Option Value → Bool
unfolding deep_equal
equals raw none = false
equals raw (some value) = deep_equal raw value

unfoldable pub is_listed : Value → Option Value → Bool
is_listed (scalar raw) (some (many candidates)) = any (λ c. scalar_eq raw c) candidates
is_listed _ _ = false

unfoldable pub contains : Value → Option Value → Bool
contains (many raw) (some (scalar value)) = any (λ el. scalar_eq el value) raw
contains (scalar (text raw)) (some (scalar (text value))) = is_some (find? raw value)
contains _ _ = false

unfoldable pub ordered : (ℤ → ℤ → Bool) → Value → Option Value → Bool
ordered test (scalar (number a)) (some (scalar (number b))) = test a b
ordered test _ _ = false

-- A comparison with a value that is present, by its operator.
unfoldable pub compare_with : ConditionOp → Value → Option Value → Bool
unfolding equals is_listed contains ordered
compare_with ConditionOp.eq raw value = equals raw value
compare_with ConditionOp.ne raw value = not (equals raw value)
compare_with ConditionOp.in_list raw value = is_listed raw value
compare_with ConditionOp.includes raw value = contains raw value
compare_with ConditionOp.gt raw value = ordered (λ a b. ltb_ℤ b a) raw value
compare_with ConditionOp.gte raw value = ordered (λ a b. leb_ℤ b a) raw value
compare_with ConditionOp.lt raw value = ordered ltb_ℤ raw value
compare_with ConditionOp.lte raw value = ordered leb_ℤ raw value
compare_with _ raw value = false

-- A missing answer, or a null, fails every comparison but `answered`, which is false of it too.
unfoldable pub compare_present : ConditionOp → Option Value → Option Value → Bool
unfolding compare_with
compare_present op none value = false
compare_present op (some null) value = false
compare_present op (some raw) value = compare_with op raw value

unfoldable pub compare_by : ConditionOp → Option Value → Option Value → Result Fault Bool
unfolding compare_present is_answered
compare_by (ConditionOp.unknown op) raw value = err (unknown_operator op)
compare_by ConditionOp.answered raw value = ok (is_answered raw)
compare_by op raw value = ok (compare_present op raw value)

unfoldable pub eval_comparison : Comparison → Answers → Result Fault Bool
unfolding compare_by
eval_comparison cmp answers = compare_by cmp.op (get answers cmp.field) cmp.value

-- `every` and `some` stop at the first answer that decides.
abbrev pub and_then : Result Fault Bool → Result Fault Bool → Result Fault Bool
and_then (ok true) rest = rest
and_then (ok false) rest = ok false
and_then (err e) rest = err e

abbrev pub or_then : Result Fault Bool → Result Fault Bool → Result Fault Bool
or_then (ok true) rest = ok true
or_then (ok false) rest = rest
or_then (err e) rest = err e

unfoldable mutual
  unfolding eval_comparison

  pub evaluate : Condition → Answers → Result Fault Bool
  evaluate (compare cmp) answers = eval_comparison cmp answers
  evaluate (all_of cs) answers = evaluate_all cs answers
  evaluate (any_of cs) answers = evaluate_any cs answers
  evaluate (negate c) answers = do b ← evaluate c answers; ok (not b)

  pub evaluate_all : Conditions → Answers → Result Fault Bool
  evaluate_all nil answers = ok true
  evaluate_all (cons c cs) answers = and_then (evaluate c answers) (evaluate_all cs answers)

  pub evaluate_any : Conditions → Answers → Result Fault Bool
  evaluate_any nil answers = ok false
  evaluate_any (cons c cs) answers = or_then (evaluate c answers) (evaluate_any cs answers)

-- ===== src/Pricing/Refusals.antt =====
-- Why a selection is refused: the calls of `invalid` in packages/core/src/pricing.ts.
use booking_lumin_checkout.Base.{String}

pub data Reason : Type 0 where
  service_mismatch rental_config_missing rental_periods_required rental_periods_not_valid : Reason
  unknown_item invalid_item_quantity item_out_of_range : String → Reason
  unknown_addon duplicate_addon : String → Reason
  unknown_question takes_quantity takes_choices missing_answer : String → Reason
  invalid_question_quantity question_out_of_range not_exactly_one : String → Reason
  duplicate_choice unknown_choice : (choice question : String) → Reason
  rental_out_of_range unsafe_amount negative_subtotal negative_total : Reason

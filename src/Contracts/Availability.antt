-- ===== src/Contracts/Availability.antt =====
-- packages/contracts/src/availability.ts: rules, overrides, blackouts, the policy, a query and its
-- slots. Minutes, capacities and days are whole and not negative by the contract. A calendar date is
-- the list of its characters, which the engine compares and cuts; an instant is a text.
use booking_lumin_checkout.Base.{ℕ, String, Option, List}

abbrev pub DateText : Type 0
DateText = List ℕ

pub record AvailabilityRule : Type 0 where
  pub service_id : Option String
  pub weekday : ℕ
  pub start_minute : ℕ
  pub end_minute : ℕ
  pub capacity : ℕ
  pub effective_from : Option DateText
  pub effective_to : Option DateText

pub data OverrideKind : Type 0 where
  closed opened : OverrideKind

pub record AvailabilityOverride : Type 0 where
  pub service_id : Option String
  pub date : DateText
  pub kind : OverrideKind
  pub start_minute : Option ℕ
  pub end_minute : Option ℕ
  pub capacity : Option ℕ

pub data Recurrence : Type 0 where
  once annual : Recurrence

pub record AvailabilityBlackout : Type 0 where
  pub service_id : Option String
  pub recurrence : Recurrence
  pub from : DateText
  pub to : DateText
  pub start_minute : Option ℕ
  pub end_minute : Option ℕ

pub record SchedulingPolicy : Type 0 where
  pub lead_time_minutes : ℕ
  pub horizon_days : ℕ
  pub slot_interval_minutes : ℕ

pub record Slot : Type 0 where
  pub start : String
  pub end : String
  pub remaining_capacity : ℕ

pub record CapacityHold : Type 0 where
  pub start : String
  pub end : String

-- `blackouts` is `[]` where the query leaves them out.
pub record AvailabilityQuery : Type 0 where
  pub tenant_timezone : String
  pub service_id : String
  pub duration_minutes : ℕ
  pub policy : SchedulingPolicy
  pub rules : List AvailabilityRule
  pub overrides : List AvailabilityOverride
  pub blackouts : List AvailabilityBlackout
  pub existing : List CapacityHold
  pub now : String
  pub from : String
  pub to : String

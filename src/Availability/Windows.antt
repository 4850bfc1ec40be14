-- ===== src/Availability/Windows.antt =====
-- packages/core/src/availability.ts: the windows of a day, from the overrides or the weekly rules,
-- and the blackouts that are cut out of them.
pub mod Closing
use booking_lumin_checkout.Base.{
  ℕ, String, Bool, true, false, not, ◌&&◌, ◌||◌, ◌==◌, nat_eq, Option, none, some, List, [], ◌∷◌,
  ◌++◌, map, ltb, leb, is_empty, keep, any, drop, or_else, if◌then◌else◌,
}
use booking_lumin_checkout.Contracts.Availability.{
  DateText, AvailabilityRule, OverrideKind, closed, opened, AvailabilityOverride, Recurrence, once,
  annual, AvailabilityBlackout, AvailabilityQuery,
}
use booking_lumin_checkout.Availability.Dates.{
  text_eq, text_lt, text_le, weekday_of_date, iso_date, CivilDate,
}

pub record Window : Type 0 where
  pub start_minute : ℕ
  pub end_minute : ℕ
  pub capacity : ℕ

abbrev pub window : ℕ → ℕ → ℕ → Window
window s e c = record { start_minute = s; end_minute = e; capacity = c }

-- `id === null || id === serviceId`, and `id === serviceId`.
abbrev pub in_scope : Option String → String → Bool
in_scope none service = true
in_scope (some id) service = id == service

abbrev pub is_service : Option String → String → Bool
is_service none service = false
is_service (some id) service = id == service

abbrev pub at_least : Option DateText → DateText → Bool
at_least none date = true
at_least (some bound) date = not (text_lt date bound)

abbrev pub at_most : Option DateText → DateText → Bool
at_most none date = true
at_most (some bound) date = not (text_lt bound date)

unfoldable pub rule_effective_on : AvailabilityRule → DateText → Bool
rule_effective_on r date = at_least r.effective_from date && at_most r.effective_to date

-- The dates that a blackout covers, by its recurrence.
unfoldable pub range_covers : Recurrence → DateText → DateText → DateText → Bool
range_covers annual from to date =
    let md = drop 5 date in
    let lo = drop 5 from in
    let hi = drop 5 to in
    if text_le lo hi then text_le lo md && text_le md hi else text_le lo md || text_le md hi
range_covers once from to date =
    let lo = (if text_le from to then from else to) in
    let hi = (if text_le from to then to else from) in text_le lo date && text_le date hi

unfoldable pub blackout_covers : AvailabilityQuery → AvailabilityBlackout → DateText → Bool
blackout_covers query b date =
    in_scope b.service_id query.service_id && range_covers b.recurrence b.from b.to date

-- What is left of one window.
unfoldable pub clip : Window → ℕ → ℕ → List Window
clip w bs be =
    if leb be w.start_minute || leb w.end_minute bs
    then w ∷ []
    else (if ltb w.start_minute bs then window w.start_minute bs w.capacity ∷ [] else [])
      ++ (if ltb be w.end_minute then window be w.end_minute w.capacity ∷ [] else [])

unfoldable pub subtract_interval : List Window → ℕ → ℕ → List Window
subtract_interval [] bs be = []
subtract_interval (w ∷ ws) bs be = clip w bs be ++ subtract_interval ws bs be

-- The minutes that a blackout closes, or the whole day.
unfoldable pub minutes_of : AvailabilityBlackout → Option (ℕ × ℕ)
minutes_of b = elim b.start_minute [
  | none ↦ none
  | some s ↦ elim b.end_minute [ none ↦ none | some e ↦ if leb e s then none else some (s, e) ]
]

unfoldable pub apply_covering : List AvailabilityBlackout → List Window → List Window
apply_covering [] windows = windows
apply_covering (b ∷ bs) windows = elim (minutes_of b) [
  | none ↦ []
  | some (s, e) ↦ apply_covering bs (subtract_interval windows s e)
]

unfoldable pub apply_blackouts : AvailabilityQuery → DateText → List Window → List Window
apply_blackouts query date windows =
    apply_covering (keep (λ b. blackout_covers query b date) query.blackouts) windows

-- The entries of the service alone, if there are any.
abbrev pub prefer {ℓ} : {A : Type ℓ} → List A → List A → List A
prefer own all = if is_empty own then all else own

abbrev pub is_closed : OverrideKind → Bool
is_closed closed = true
is_closed opened = false

unfoldable pub override_window : AvailabilityOverride → Window
override_window o = elim o.start_minute [
  | none ↦ window 0 0 0
  | some s ↦ elim o.end_minute [
    | none ↦ window 0 0 0
    | some e ↦ if leb e s then window 0 0 0 else window s e (or_else o.capacity 1)
  ]
]

unfoldable pub effective_overrides : AvailabilityQuery → DateText → List AvailabilityOverride
effective_overrides query date =
    let applicable =
      keep
        (λ (o : AvailabilityOverride).
          text_eq o.date date && in_scope o.service_id query.service_id)
        query.overrides in
    prefer (keep (λ o. is_service o.service_id query.service_id) applicable) applicable

unfoldable pub effective_rules : AvailabilityQuery → ℕ → DateText → List AvailabilityRule
effective_rules query weekday date =
    let day_rules =
      keep
        (λ (r : AvailabilityRule).
          nat_eq r.weekday weekday
          && (in_scope r.service_id query.service_id && rule_effective_on r date))
        query.rules in
    prefer (keep (λ r. is_service r.service_id query.service_id) day_rules) day_rules

unfoldable pub base_windows_for_date : AvailabilityQuery → ℕ → DateText → List Window
base_windows_for_date query weekday date =
    let overrides = effective_overrides query date in
    let open_overrides = keep (λ (o : AvailabilityOverride). not (is_closed o.kind)) overrides in
    if any (λ (o : AvailabilityOverride). is_closed o.kind) overrides
    then []
    else if not (is_empty open_overrides)
    then map override_window open_overrides
    else map (λ (r : AvailabilityRule). window r.start_minute r.end_minute r.capacity)
        (keep (λ (r : AvailabilityRule). ltb r.start_minute r.end_minute)
          (effective_rules query weekday date))

unfoldable pub windows_for_date : AvailabilityQuery → CivilDate → List Window
windows_for_date query c =
    let date = iso_date c.y c.m c.d in
    apply_blackouts query date (base_windows_for_date query (weekday_of_date c.y c.m c.d) date)

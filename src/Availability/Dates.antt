-- ===== src/Availability/Dates.antt =====
-- packages/core/src/availability.ts, its date helpers: `Date.UTC` and the UTC getters of `Date` by
-- the proleptic Gregorian calendar from year 1 on, dates as texts, and the time zones and texts of
-- instants, which are JavaScript's `Intl` and `Date` and are parameters.
use booking_lumin_checkout.Base.{
  ℕ, ◌+◌, ◌-◌, ◌*◌, ◌/◌, ◌%◌, ◌≡◌, String, Bool, true, false, ◌&&◌, ◌||◌, Option, none, some, [],
  ◌∷◌, ltb, leb, nat_eq, if◌then◌else◌,
}
use booking_lumin_checkout.Base.Int.{ℤ, pos, pos_part, ◌+ℤ◌, ◌-ℤ◌, floor_div}
use booking_lumin_checkout.Base.Result.{Result, ok, err, ◌>>=◌}
use booking_lumin_checkout.Contracts.Availability.{DateText}

-- The engine's only answer to what its callees throw is to give up.
pub data Fault : Type 0 where
  thrown : Fault

-- What `formatToParts` yields in a time zone, the hour as it is rendered.
pub record DateParts : Type 0 where
  pub year : ℕ
  pub month : ℕ
  pub day : ℕ
  pub hour : ℕ
  pub minute : ℕ
  pub second : ℕ

-- `parse` is `new Date(text).getTime()`, with `none` for NaN; `to_iso` is `toISOString()`, with
-- `none` for the RangeError; `zone_valid` says that `Intl.DateTimeFormat` accepts a time zone, and
-- `zone_parts` formats an instant there, with `none` where a part is missing.
pub record Platform : Type 0 where
  pub parse : String → Option ℤ
  pub to_iso : ℤ → Option String
  pub zone_valid : String → Bool
  pub zone_parts : String → ℤ → Option DateParts
  -- A rendered instant reads back as itself.
  pub parse-to_iso : (t : ℤ) (s : String) → to_iso t ≡ some s → parse s ≡ some t

abbrev pub ms_per_day : ℕ
ms_per_day = 86_400_000

abbrev pub ms_per_minute : ℕ
ms_per_minute = 60_000

-- Days from 0000-03-01 to a date, month 1 to 12.
unfoldable pub day_number : ℕ → ℕ → ℕ → ℕ
day_number y m d =
    let year = (if leb m 2 then y - 1 else y) in
    let of_era = year % 400 in
    let of_year = (153 * ((m + 9) % 12) + 2) / 5 + d - 1 in
    year / 400 * 146_097 + (of_era * 365 + of_era / 4 - of_era / 100 + of_year)

-- 1970-01-01.
abbrev pub epoch_day : ℕ
epoch_day = 719_468

-- `Date.UTC(y, m - 1, d, h, mi, s)`.
unfoldable pub date_utc : ℕ → ℕ → ℕ → ℕ → ℕ → ℕ → ℤ
unfolding day_number
date_utc y m d h mi s =
    pos (day_number y m d * ms_per_day + h * 3_600_000 + mi * ms_per_minute + s * 1000)
    -ℤ pos (epoch_day * ms_per_day)

pub record CivilDate : Type 0 where
  pub y : ℕ
  pub m : ℕ
  pub d : ℕ

-- The date of a day number.
unfoldable pub civil_of : ℕ → CivilDate
civil_of z =
    let doe = z % 146_097 in
    let yoe = (doe - doe / 1460 + doe / 36_524 - doe / 146_096) / 365 in
    let doy = doe - (365 * yoe + yoe / 4 - yoe / 100) in
    let mp = (5 * doy + 2) / 153 in
    let month = (if ltb mp 10 then mp + 3 else mp - 9) in
    let year = yoe + z / 146_097 * 400 in
    record {
      y = (if leb month 2 then year + 1 else year);
      m = month;
      d = doy - (153 * mp + 2) / 5 + 1;
    }

-- `getUTCFullYear`, `getUTCMonth() + 1` and `getUTCDate` of an instant.
unfoldable pub utc_date : ℤ → CivilDate
unfolding civil_of
utc_date ms = civil_of (pos_part (floor_div ms ms_per_day +ℤ pos epoch_day))

-- `new Date(Date.UTC(y, m - 1, d)).getUTCDay()`; 0000-03-01 was a Wednesday.
unfoldable pub weekday_of_date : ℕ → ℕ → ℕ → ℕ
unfolding day_number
weekday_of_date y m d = (day_number y m d + 3) % 7

-- The decimal digits of a number below 10000, with zeros in front up to a width.
abbrev digit : ℕ → ℕ
digit n = b'0' + n % 10

unfoldable pub iso_date : ℕ → ℕ → ℕ → DateText
iso_date y m d =
    digit (y / 1000)
    ∷ digit (y / 100)
    ∷ digit (y / 10)
    ∷ digit y
    ∷ b'-'
    ∷ digit (m / 10)
    ∷ digit m
    ∷ b'-'
    ∷ digit (d / 10)
    ∷ digit d
    ∷ []

-- Equality and order of texts by their code units, as `===` and `<` have them.
unfoldable pub text_eq : DateText → DateText → Bool
text_eq [] [] = true
text_eq (a ∷ as') (b ∷ bs) = nat_eq a b && text_eq as' bs
text_eq _ _ = false

unfoldable pub text_lt : DateText → DateText → Bool
text_lt xs [] = false
text_lt [] (b ∷ bs) = true
text_lt (a ∷ as') (b ∷ bs) = ltb a b || (nat_eq a b && text_lt as' bs)

abbrev pub text_le : DateText → DateText → Bool
text_le a b = text_lt a b || text_eq a b

module _ (platform : Platform) where
  open platform use {zone_parts}

  -- The offset such that the wall clock is UTC plus the offset.
  unfoldable pub tz_offset_ms : String → ℤ → Result Fault ℤ
  tz_offset_ms zone utc = elim (zone_parts zone utc) [
    | none ↦ err thrown
    | some p ↦
        let hour = (if nat_eq p.hour 24 then 0 else p.hour) in
        ok (date_utc p.year p.month p.day hour p.minute p.second -ℤ utc)
  ]

  unfoldable pub local_minute_to_utc_ms : String → CivilDate → ℕ → Result Fault ℤ
  local_minute_to_utc_ms zone c minute = do
    let wall = date_utc c.y c.m c.d 0 0 0 +ℤ pos (minute * ms_per_minute)
    guess ← tz_offset_ms zone wall
    offset ← tz_offset_ms zone (wall -ℤ guess)
    ok (wall -ℤ offset)

  unfoldable pub local_date_of_instant : String → ℤ → Result Fault CivilDate
  local_date_of_instant zone utc = elim (zone_parts zone utc) [
    | none ↦ err thrown
    | some p ↦ ok (record { y = p.year; m = p.month; d = p.day })
  ]

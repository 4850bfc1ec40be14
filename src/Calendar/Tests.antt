-- ===== src/Calendar/Tests.antt =====
-- Runs of `mergeBusy` and of the mock adapters on texts that a small reader of dates understands.
use booking_lumin_checkout.Base.{
  String, ◌==◌, ◌≡◌, ◌||◌, refl, Option, none, some, List, [], ◌∷◌, if◌then◌else◌,
}
use booking_lumin_checkout.Base.Int.{ℤ, pos}
use booking_lumin_checkout.Base.Dict.{get, put, delete}
use booking_lumin_checkout.Base.Decimal.{decimal}
use booking_lumin_checkout.Connections.{mock_health}
use booking_lumin_checkout.Calendar.{
  BusySource, BusyWindow, TimeRange, CalendarKind, CalendarEvent, AdapterState, merge_busy,
  make_adapter, create_event, cancel_event, read_busy, range_overlaps,
}
use booking_lumin_checkout.Calendar.Order.{covers}
use booking_lumin_checkout.Calendar.Merge.{anyone, is_hold, merge_busy-covers}
use booking_lumin_checkout.Calendar.Separation.{IsSeparated, merge_busy-IsSeparated}

abbrev hour : String → Option ℤ
hour text =
    if text == "09"
    then some (pos 9)
    else if text == "10"
    then some (pos 10)
    else if text == "11"
    then some (pos 11)
    else if text == "12"
    then some (pos 12)
    else none

abbrev window : String → String → BusySource → BusyWindow
window start end source = record { start = start; end = end; source = source }

abbrev holds : List BusyWindow
holds = window "10" "11" BusySource.internal ∷ window "12" "09" BusySource.internal ∷ []

abbrev busy : List BusyWindow
busy = window "09" "10" BusySource.internal ∷ window "noon" "12" BusySource.external ∷ []

-- The external window touches the hold: one span, tagged internal; what cannot be read is dropped.
merge_test : merge_busy hour holds busy ≡ window "09" "11" BusySource.internal ∷ []
unfolding merge_busy
merge_test = refl

abbrev house_visit : CalendarEvent
house_visit = record {
  event_id = "";
  tenant_id = "t1";
  booking_id = "b1";
  title = "Cleaning";
  start = "09";
  end = "11";
  description = none;
  location = none;
}

abbrev day : TimeRange
day = record { start = "10"; end = "12" }

abbrev written : AdapterState
written =
    (create_event CalendarKind.microsoft house_visit
      (make_adapter CalendarKind.microsoft busy none)).1

microsoft_reads_events :
    read_busy hour CalendarKind.microsoft "t1" day written
    ≡ window "09" "11" BusySource.external ∷ []
unfolding read_busy create_event make_adapter mock_health put decimal
microsoft_reads_events = refl

google_reads_the_seed : read_busy hour CalendarKind.google "t1" day written ≡ []
unfolding read_busy create_event make_adapter mock_health put decimal range_overlaps
google_reads_the_seed = refl

another_tenant_cancels_nothing : (cancel_event "t2" "microsoft_ev_1" written).cancelled ≡ []
unfolding cancel_event create_event make_adapter mock_health put decimal get
another_tenant_cancels_nothing = refl

cancelled_once :
    (cancel_event "t1" "microsoft_ev_1" (cancel_event "t1" "microsoft_ev_1" written)).cancelled
    ≡ "microsoft_ev_1" ∷ []
unfolding cancel_event create_event make_adapter mock_health put decimal get delete
cancelled_once = refl

merge_busy-covers_example :
    (covers hour anyone (merge_busy hour holds busy) (pos 9)
      ≡ (covers hour anyone holds (pos 9) || covers hour anyone busy (pos 9)))
    × (covers hour is_hold (merge_busy hour holds busy) (pos 9) ≡ (
        covers hour anyone holds (pos 9)
        || covers hour is_hold (merge_busy hour holds busy) (pos 9)))
merge_busy-covers_example = merge_busy-covers hour holds busy (pos 9)

merge_busy-IsSeparated_example : IsSeparated hour (merge_busy hour holds busy)
merge_busy-IsSeparated_example = merge_busy-IsSeparated hour holds busy

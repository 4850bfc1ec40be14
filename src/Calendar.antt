-- ===== src/Calendar.antt =====
-- packages/integrations/src/calendar.ts: `mergeBusy`, and the state that both mock adapters keep.
-- Date texts are read by a parameter `to_ms`, in milliseconds; no number stands for NaN, which every
-- comparison answers with false.
pub mod Order
pub mod Merge
pub mod Separation
pub mod Tests
use booking_lumin_checkout.Base.{
  ℕ, suc, String, Bool, true, false, ◌&&◌, ◌||◌, ◌==◌, ◌≡◌, Option, none, some, List, [], ◌∷◌, ◌++◌,
  map, keep, length, or_else, if◌then◌else◌,
}
use Prim.Native.String
use booking_lumin_checkout.Base.Decimal.{decimal}
use booking_lumin_checkout.Base.Int.{ℤ, ltb_ℤ, leb_ℤ}
use booking_lumin_checkout.Base.Dict.{Dict, get, put, delete}
use booking_lumin_checkout.Connections.{ConnectionStatus, ConnectionHealth, mock_health}

pub data BusySource : Type 0 where
  internal external : BusySource

pub record BusyWindow : Type 0 where
  pub start : String
  pub end : String
  pub source : BusySource

pub record TimeRange : Type 0 where
  pub start : String
  pub end : String

abbrev pub is_internal : BusySource → Bool
is_internal BusySource.internal = true
is_internal BusySource.external = false

-- `a < b` and `a <= b` on what `Date.parse` gives.
abbrev pub is_before : Option ℤ → Option ℤ → Bool
is_before (some a) (some b) = ltb_ℤ a b
is_before _ _ = false

abbrev pub is_by : Option ℤ → Option ℤ → Bool
is_by (some a) (some b) = leb_ℤ a b
is_by _ _ = false

abbrev pub tagged : BusySource → BusyWindow → BusyWindow
tagged source w = record w { source = source }

module _ (to_ms : String → Option ℤ) where
  abbrev pub is_real : BusyWindow → Bool
  is_real w = is_before (to_ms w.start) (to_ms w.end)

  -- The stable sort by start.
  unfoldable pub insert_window : BusyWindow → List BusyWindow → List BusyWindow
  insert_window w [] = w ∷ []
  insert_window w (x ∷ xs) =
      if is_before (to_ms x.start) (to_ms w.start) then x ∷ insert_window w xs else w ∷ (x ∷ xs)

  unfoldable pub sort_windows : List BusyWindow → List BusyWindow
  sort_windows [] = []
  sort_windows (w ∷ ws) = insert_window w (sort_windows ws)

  -- The last merged window, extended by one that starts in it or where it ends.
  unfoldable pub extend : BusyWindow → BusyWindow → BusyWindow
  extend last w = record last {
    end = if is_before (to_ms last.end) (to_ms w.end) then w.end else last.end;
    source =
        if is_internal w.source || is_internal last.source
        then BusySource.internal
        else last.source;
  }

  -- The loop, after its first round: only the last merged window still changes.
  unfoldable pub absorb : BusyWindow → List BusyWindow → List BusyWindow
  absorb last [] = last ∷ []
  absorb last (w ∷ ws) = elim (is_by (to_ms w.start) (to_ms last.end)) [
    | true ↦ absorb (extend last w) ws
    | false ↦ last ∷ absorb w ws
  ]

  unfoldable pub merge_sorted : List BusyWindow → List BusyWindow
  unfolding absorb extend
  merge_sorted [] = []
  merge_sorted (w ∷ ws) = absorb w ws

  unfoldable pub merge_busy : List BusyWindow → List BusyWindow → List BusyWindow
  unfolding merge_sorted sort_windows insert_window
  merge_busy internal_holds external_busy =
      let all =
        map (tagged BusySource.internal) internal_holds
        ++ map (tagged BusySource.external) external_busy in
      merge_sorted (sort_windows (keep is_real all))

-- An event as it is kept, with its id.
pub record CalendarEvent : Type 0 where
  pub event_id : String
  pub tenant_id : String
  pub booking_id : String
  pub title : String
  pub start : String
  pub end : String
  pub description : Option String
  pub location : Option String

-- The input of `createEvent` is an event whose id is not read.
abbrev pub CalendarEventInput : Type 0
CalendarEventInput = CalendarEvent

pub record EventPatch : Type 0 where
  pub title : Option String
  pub start : Option String
  pub end : Option String
  pub description : Option (Option String)
  pub location : Option (Option String)

pub data CalendarKind : Type 0 where
  google microsoft : CalendarKind

abbrev pub calendar_name : CalendarKind → String
calendar_name CalendarKind.google = "google"
calendar_name CalendarKind.microsoft = "microsoft"

-- The variables of `makeAdapter`; the seed is tagged external when it is taken in.
pub record AdapterState : Type 0 where
  pub events : Dict CalendarEvent
  pub cancelled : List String
  pub seed : List BusyWindow
  pub counter : ℕ
  pub current_health : ConnectionHealth

unfoldable pub make_adapter :
    CalendarKind → List BusyWindow → Option ConnectionHealth → AdapterState
make_adapter kind seed_busy health = record {
  events = [];
  cancelled = [];
  seed = map (tagged BusySource.external) seed_busy;
  counter = 0;
  current_health =
      or_else health (mock_health (calendar_name kind) ConnectionStatus.connected none none);
}

unfoldable pub create_event :
    CalendarKind → CalendarEventInput → AdapterState → String × AdapterState
create_event kind input s =
    let event_id =
      String.◌++◌ (calendar_name kind) (String.◌++◌ "_ev_" (decimal (suc s.counter))) in
    (
      event_id,
      record s {
        counter = suc s.counter;
        events = put s.events event_id (record input { event_id = event_id });
      },
    )

abbrev pub patched_event : EventPatch → String → CalendarEvent → CalendarEvent
patched_event patch event_id e = record e {
  event_id = event_id;
  title = or_else patch.title e.title;
  start = or_else patch.start e.start;
  end = or_else patch.end e.end;
  description = or_else patch.description e.description;
  location = or_else patch.location e.location;
}

-- `existing && existing.tenantId === tenantId`.
abbrev pub is_owned : String → Option CalendarEvent → Bool
is_owned tenant_id none = false
is_owned tenant_id (some e) = e.tenant_id == tenant_id

abbrev replaced :
    Dict CalendarEvent → EventPatch → String → Option CalendarEvent → Dict CalendarEvent
replaced events patch event_id none = events
replaced events patch event_id (some e) = put events event_id (patched_event patch event_id e)

unfoldable pub update_event : String → String → EventPatch → AdapterState → String × AdapterState
update_event tenant_id event_id patch s =
    let existing = get s.events event_id in
    (
      event_id,
      if is_owned tenant_id existing
          then record s { events = replaced s.events patch event_id existing }
          else s,
    )

unfoldable pub delete_event : String → String → AdapterState → AdapterState
delete_event tenant_id event_id s =
    if is_owned tenant_id (get s.events event_id)
    then record s { events = delete s.events event_id; cancelled = s.cancelled ++ (event_id ∷ []) }
    else s

unfoldable pub cancel_event : String → String → AdapterState → AdapterState
unfolding delete_event
cancel_event tenant_id event_id s = delete_event tenant_id event_id s

unfoldable pub reconnect : CalendarKind → AdapterState → ConnectionHealth × AdapterState
reconnect kind s =
    let health = mock_health (calendar_name kind) ConnectionStatus.connected none none in
    (health, record s { current_health = health })

pub record SyncResult : Type 0 where
  pub provider : String
  pub external_windows : ℕ
  pub synced_at : String

abbrev pub listed : Dict CalendarEvent → List CalendarEvent
listed events = map (λ (e : String × CalendarEvent). e.1) events

module _ (to_ms : String → Option ℤ) where
  unfoldable pub range_overlaps : String → String → TimeRange → Bool
  range_overlaps a_start a_end range =
      is_before (to_ms a_start) (to_ms range.end) && is_before (to_ms range.start) (to_ms a_end)

  abbrev pub in_range : TimeRange → BusyWindow → Bool
  in_range range w = range_overlaps w.start w.end range

  abbrev pub busy_of : CalendarEvent → BusyWindow
  busy_of e = record { start = e.start; end = e.end; source = BusySource.external }

  unfoldable pub busy_events : String → TimeRange → Dict CalendarEvent → List BusyWindow
  unfolding range_overlaps
  busy_events tenant_id range events = map busy_of (
      keep (λ (e : CalendarEvent). e.tenant_id == tenant_id && range_overlaps e.start e.end range)
        (listed events))

  unfoldable pub read_busy : CalendarKind → String → TimeRange → AdapterState → List BusyWindow
  unfolding busy_events
  read_busy CalendarKind.google tenant_id range s =
      map (tagged BusySource.external) (keep (in_range range) s.seed)
  read_busy CalendarKind.microsoft tenant_id range s =
      map (tagged BusySource.external) (keep (in_range range) s.seed)
      ++ busy_events tenant_id range s.events

  unfoldable pub sync_calendar : CalendarKind → TimeRange → AdapterState → SyncResult
  unfolding range_overlaps
  sync_calendar kind range s = record {
    provider = calendar_name kind;
    external_windows = length (keep (in_range range) s.seed);
    synced_at = range.start;
  }

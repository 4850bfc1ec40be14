-- ===== src/Edge/Mirror.antt =====
-- supabase/functions/_shared/availability.ts against packages/core/src/availability.ts.
use booking_lumin_checkout.Base.{
  ℕ, ◌*◌, ◌≡◌, refl, ap, ◌∙◌, String, Bool, false, not, ◌&&◌, ◌||◌, nat_eq, Option, none, some,
  List, [], ◌∷◌, map, ltb, is_empty, keep, any, arith, Bool-cases, Option-cases, inl, inr,
  if◌then◌else◌,
}
use booking_lumin_checkout.Base.Int.{ℤ, ltb_ℤ}
use booking_lumin_checkout.Contracts.Availability.{
  DateText, AvailabilityRule, AvailabilityOverride, AvailabilityQuery, Slot,
}
use booking_lumin_checkout.Availability.Dates.{
  Fault, thrown, Platform, ms_per_minute, CivilDate, utc_date, iso_date, weekday_of_date,
  local_minute_to_utc_ms, local_date_of_instant,
}
use booking_lumin_checkout.Availability.Windows.{
  is_closed, Window, window, in_scope, is_service, prefer, rule_effective_on, effective_overrides,
  effective_rules, override_window, base_windows_for_date, apply_covering, apply_blackouts,
  windows_for_date,
}
use booking_lumin_checkout.Base.Result.{Result, Result-cases, ok, err, ◌>>=◌, ◌>>◌, throw_if}
use booking_lumin_checkout.Availability.Slots.{
  Span, Capacities, minutes_of_window, window_starts, day_starts, all_starts, emit_slots,
  sort_starts, slots_between, slots_at, read_times, Times, read_holds, compute_slots,
  is_slot_available, found_in, earliest, latest, unconfigured,
}
use booking_lumin_checkout.Availability.Slots.Closed.{Unread-closed}
use mathlib.Core.Path.{fun_ext}
use booking_lumin_checkout.Edge.{
  edge_earliest, edge_latest, edge_window_starts, edge_day_starts, edge_all_starts,
  capacities_between, capacities_at, capacities_read, capacity_by_start_map, slots_of_map,
  edge_compute_slots, edge_is_slot_available, EdgeRule, EdgeQuery, edge_override_window,
  edge_overrides, edge_rules, edge_windows, edge_windows_for_date,
}

-- A rule of the edge functions as the contract has it: with no season.
abbrev pub as_rule : EdgeRule → AvailabilityRule
as_rule r = record {
  service_id = r.service_id;
  weekday = r.weekday;
  start_minute = r.start_minute;
  end_minute = r.end_minute;
  capacity = r.capacity;
  effective_from = none;
  effective_to = none;
}

-- A query of the edge functions as the contract has it: with no blackouts.
abbrev pub as_query : EdgeQuery → AvailabilityQuery
as_query q = record {
  tenant_timezone = q.tenant_timezone;
  service_id = q.service_id;
  duration_minutes = q.duration_minutes;
  policy = q.policy;
  rules = map as_rule q.rules;
  overrides = q.overrides;
  blackouts = [];
  existing = q.existing;
  now = q.now;
  from = q.from;
  to = q.to;
}

keep-map {ℓ κ} :
    {A : Type ℓ} {B : Type κ} (f : A → B) (p : B → Bool) (q : A → Bool) (xs : List A)
    → ((x : A) → p (f x) ≡ q x)
    → keep p (map f xs) ≡ map f (keep q xs)
keep-map f p q [] h = refl
keep-map f p q (x ∷ xs) h = elim (Bool-cases (q x)) [
  | inl e ↦ rw (h x, e, keep-map f p q xs h) refl
  | inr e ↦ rw (h x, e) (keep-map f p q xs h)
]

prefer-map {ℓ κ} :
    {A : Type ℓ} {B : Type κ} (f : A → B) (own all : List A)
    → prefer (map f own) (map f all) ≡ map f (prefer own all)
prefer-map f [] all = refl
prefer-map f (x ∷ own) all = refl

map-map {ℓ κ μ} :
    {A : Type ℓ} {B : Type κ} {C : Type μ} (f : A → B) (g : B → C) (xs : List A)
    → map g (map f xs) ≡ map (λ x. g (f x)) xs
map-map f g [] = refl
map-map f g (x ∷ xs) = ap (λ ys. g (f x) ∷ ys) (map-map f g xs)

rules-same :
    (q : EdgeQuery) (weekday : ℕ) (date : DateText)
    → effective_rules (as_query q) weekday date ≡ map as_rule (edge_rules q weekday)
unfolding effective_rules edge_rules rule_effective_on
rules-same q weekday date =
    let applies =
      λ (r : EdgeRule). nat_eq r.weekday weekday && in_scope r.service_id q.service_id in
    rw
      (
        keep-map as_rule
            (λ (r : AvailabilityRule).
              nat_eq r.weekday weekday
              && (in_scope r.service_id q.service_id && rule_effective_on r date))
            applies q.rules (λ r. ground arith),
        keep-map as_rule (λ r. is_service r.service_id q.service_id)
            (λ (r : EdgeRule). is_service r.service_id q.service_id) (keep applies q.rules)
            (λ r. refl),
      )
      (prefer-map as_rule _ _)

weekly-same :
    (q : EdgeQuery) (weekday : ℕ) (date : DateText)
    → map
        (λ (r : AvailabilityRule). window r.start_minute r.end_minute r.capacity)
        (keep
          (λ (r : AvailabilityRule). ltb r.start_minute r.end_minute)
          (effective_rules (as_query q) weekday date))
      ≡ map
          (λ (r : EdgeRule). window r.start_minute r.end_minute r.capacity)
          (keep (λ (r : EdgeRule). ltb r.start_minute r.end_minute) (edge_rules q weekday))
weekly-same q weekday date =
    rw
      (
        rules-same q weekday date,
        keep-map as_rule (λ (r : AvailabilityRule). ltb r.start_minute r.end_minute)
            (λ (r : EdgeRule). ltb r.start_minute r.end_minute) (edge_rules q weekday) (λ r. refl),
      )
      (map-map as_rule (λ (r : AvailabilityRule). window r.start_minute r.end_minute r.capacity) _)

base-same :
    (q : EdgeQuery) (weekday : ℕ) (date : DateText)
    → base_windows_for_date (as_query q) weekday date ≡ edge_windows q weekday date
unfolding base_windows_for_date edge_windows effective_overrides edge_overrides override_window
    edge_override_window
base-same q weekday date = rw (weekly-same q weekday date) refl

-- The windows of a day are those of the core engine.
pub windows-same :
    (q : EdgeQuery) (c : CivilDate) → windows_for_date (as_query q) c ≡ edge_windows_for_date q c
unfolding windows_for_date edge_windows_for_date apply_blackouts apply_covering
windows-same q c = base-same q (weekday_of_date c.y c.m c.d) (iso_date c.y c.m c.d)

bind_assoc {ℓ κ μ ν} :
    {E : Type ℓ} {A : Type κ} {B : Type μ} {C : Type ν} (m : Result E A) (f : A → Result E B)
    (g : B → Result E C)
    → (m >>= f >>= g) ≡ (m >>= λ a. f a >>= g)
bind_assoc (ok a) f g = refl
bind_assoc (err e) f g = refl

module _ (platform : Platform) where
  open platform use {parse, zone_valid}

  window_starts-same :
      (q : EdgeQuery) (from to : ℤ) (date : CivilDate) (capacity : ℕ) (minutes : List ℕ)
      (acc : Capacities)
      → window_starts platform (as_query q) from to date capacity minutes acc
        ≡ edge_window_starts platform q from to date capacity minutes acc
  unfolding window_starts edge_window_starts
  window_starts-same q from to date capacity [] acc = refl
  window_starts-same q from to date capacity (minute ∷ minutes) acc =
      ap (λ k. local_minute_to_utc_ms platform q.tenant_timezone date minute >>= k)
        (fun_ext λ start. window_starts-same q from to date capacity minutes _)

  day_starts-same :
      (q : EdgeQuery) (from to : ℤ) (date : CivilDate) (ws : List Window) (acc : Capacities)
      → day_starts platform (as_query q) from to date ws acc
        ≡ edge_day_starts platform q from to date ws acc
  unfolding day_starts edge_day_starts
  day_starts-same q from to date [] acc = refl
  day_starts-same q from to date (w ∷ ws) acc =
      rw
        (window_starts-same q from to date w.capacity
          (minutes_of_window q.policy.slot_interval_minutes q.duration_minutes w) acc)
        (ap
          (λ k.
            (if ltb w.capacity 1
              then ok acc
              else edge_window_starts platform q from to date w.capacity
                  (minutes_of_window q.policy.slot_interval_minutes q.duration_minutes w) acc)
            >>= k)
          (fun_ext λ next. day_starts-same q from to date ws next))

  pub all_starts-same :
      (q : EdgeQuery) (from to : ℤ) (days : List ℤ) (acc : Capacities)
      → all_starts platform (as_query q) from to days acc
        ≡ edge_all_starts platform q from to days acc
  unfolding all_starts edge_all_starts
  all_starts-same q from to [] acc = refl
  all_starts-same q from to (day ∷ days) acc =
      rw
        (
          windows-same q (utc_date day),
          day_starts-same q from to (utc_date day) (edge_windows_for_date q (utc_date day)) acc,
        )
        (ap
          (λ k.
            edge_day_starts platform q from to (utc_date day)
              (edge_windows_for_date q (utc_date day)) acc
            >>= k)
          (fun_ext λ next. all_starts-same q from to days next))

  pub slots_of_map-some :
      (q : EdgeQuery) (holds : List Span) (m : Capacities)
      → read_holds platform q.existing ≡ some holds
      → slots_of_map platform q (some m)
        ≡ emit_slots platform (q.duration_minutes * ms_per_minute) holds (sort_starts m)
  unfolding slots_of_map
  slots_of_map-some q holds m h = rw (h, slots_of_map)

  days-same :
      (q : EdgeQuery) (from to : ℤ) (days : List ℤ) (holds : List Span)
      → read_holds platform q.existing ≡ some holds
      → (edge_all_starts platform q from to days [] >>= λ m. slots_of_map platform q (some m)) ≡ (
          all_starts platform (as_query q) from to days [] >>= λ m.
          emit_slots platform (q.duration_minutes * ms_per_minute) holds (sort_starts m))
  days-same q from to days holds h = rw (all_starts-same q from to days []) (
      ap (λ k. edge_all_starts platform q from to days [] >>= k)
        (fun_ext λ m. slots_of_map-some q holds m h))

  between-same :
      (q : EdgeQuery) (from to : ℤ) (holds : List Span)
      → read_holds platform q.existing ≡ some holds
      → (capacities_between platform q from to >>= λ m. slots_of_map platform q (some m))
        ≡ slots_between platform (as_query q) from to holds
  unfolding slots_between capacities_between
  between-same q from to holds h =
      elim (Result-cases (local_date_of_instant platform q.tenant_timezone from)) [
        | inr (e, f) ↦ rw f
        | inl (first, f) ↦
            elim (Result-cases (local_date_of_instant platform q.tenant_timezone to)) [
              | inr (e, g) ↦ rw (f, g)
              | inl (last, g) ↦ rw (f, g) (days-same q from to _ holds h)
            ]
      ]

  is_empty-map : (rules : List EdgeRule) → is_empty (map as_rule rules) ≡ is_empty rules
  is_empty-map [] = refl
  is_empty-map (r ∷ rules) = refl

  slots_at_open :
      (query : AvailabilityQuery) (t : Times platform) (holds : List Span)
      → ltb_ℤ (latest platform query t.now t.to) (earliest platform query t.now t.from) ≡ false
      → unconfigured platform query ≡ false
      → read_holds platform query.existing ≡ some holds
      → slots_at platform query t
        ≡ slots_between platform query
            (earliest platform query t.now t.from)
            (latest platform query t.now t.to)
            holds
  unfolding slots_at
  slots_at_open query t holds e u h = rw (e, u, h) refl

  at-same :
      (q : EdgeQuery) (t : Times platform) (holds : List Span)
      → read_holds platform q.existing ≡ some holds
      → (capacities_at platform q t.now t.from t.to >>= λ m. slots_of_map platform q (some m))
        ≡ slots_at platform (as_query q) t
  unfolding capacities_at
  at-same q t holds h =
      let first = edge_earliest platform q t.now t.from in
      let last = edge_latest platform q t.now t.to in
      let none_left : slots_of_map platform q (some []) ≡ ok [] =
        slots_of_map-some q holds [] h ∙ unfold sort_starts emit_slots in refl in
      elim (Bool-cases (ltb_ℤ last first)) [
        | inl e ↦ unfold slots_at in rw e none_left
        | inr e ↦
            elim (Bool-cases (
              is_empty q.rules
              && not (any (λ (o : AvailabilityOverride). not (is_closed o.kind)) q.overrides))) [
                | inl u ↦ unfold slots_at in rw (e, is_empty-map q.rules, u) none_left
                | inr u ↦
                    let set_up : unconfigured platform (as_query q) ≡ false =
                      rw (is_empty-map q.rules) u in
                    rw (slots_at_open (as_query q) t holds e set_up h)
                      (rw (e, u) (between-same q first last holds h))
              ]
      ]

  abbrev times_of : (now from to : Option ℤ) → Option (Times platform)
  times_of (some now) (some from) (some to) = some (record { now = now; from = from; to = to })
  times_of _ _ _ = none

  read_times_lem :
      (query : AvailabilityQuery)
      → read_times platform query ≡ times_of (parse query.now) (parse query.from) (parse query.to)
  unfolding read_times
  read_times_lem query = elim (Option-cases (parse query.now)) [
    | inl a ↦ rw (a, read_times)
    | inr (now, a) ↦ elim (Option-cases (parse query.from)) [
      | inl b ↦ rw (a, b, read_times)
      | inr (from, b) ↦ elim (Option-cases (parse query.to)) [
        | inl c ↦ rw (a, b, c, read_times)
        | inr (to, c) ↦ rw (a, b, c, read_times)
      ]
    ]
  ]

  -- The slots at the instants, if they could be read.
  abbrev slots_when : AvailabilityQuery → Option (Times platform) → Result Fault (List Slot)
  slots_when query none = ok []
  slots_when query (some t) = slots_at platform query t

  read-same :
      (q : EdgeQuery) (holds : List Span) (now from to : Option ℤ)
      → read_holds platform q.existing ≡ some holds
      → (capacities_read platform q now from to >>= λ m. slots_of_map platform q m)
        ≡ slots_when (as_query q) (times_of now from to)
  unfolding capacities_read slots_of_map
  read-same q holds (some now) (some from) (some to) h =
      bind_assoc (capacities_at platform q now from to) _ _
      ∙ at-same q (record { now = now; from = from; to = to }) holds h
  read-same q holds none from to h = refl
  read-same q holds (some now) none to h = refl
  read-same q holds (some now) (some from) none h = refl

  compute_slots_lem :
      (query : AvailabilityQuery)
      → compute_slots platform query ≡ (
          if ltb query.duration_minutes 1 || ltb query.policy.slot_interval_minutes 5
          then ok []
          else throw_if (not (zone_valid query.tenant_timezone)) thrown
            >> slots_when query (read_times platform query))
  unfolding compute_slots
  compute_slots_lem query = elim (Option-cases (read_times platform query)) [
    | inl r ↦ rw (r, compute_slots)
    | inr (t, r) ↦ rw (r, compute_slots)
  ]

  -- Where the holds can be read, the slots are those of the core engine, or both throw.
  compute-same :
      (q : EdgeQuery) (holds : List Span)
      → read_holds platform q.existing ≡ some holds
      → edge_compute_slots platform q ≡ compute_slots platform (as_query q)
  unfolding edge_compute_slots capacity_by_start_map
  compute-same q holds h =
      rw (compute_slots_lem (as_query q), read_times_lem (as_query q))
        (elim (Bool-cases (ltb q.duration_minutes 1)) [
          | inl e ↦ rw (e, slots_of_map) refl
          | inr e ↦ elim (Bool-cases (ltb q.policy.slot_interval_minutes 5)) [
            | inl f ↦ rw (e, f, slots_of_map) refl
            | inr f ↦ elim (Bool-cases (zone_valid q.tenant_timezone)) [
              | inl z ↦ rw (e, f, z) (read-same q holds (parse q.now) (parse q.from) (parse q.to) h)
              | inr z ↦ rw (e, f, z) refl
            ]
          ]
        ])

  closed-map :
      (q : EdgeQuery) (r : Result Fault (Option Capacities)) (target : ℤ)
      → read_holds platform q.existing ≡ none
      → found_in platform target (r >>= λ m. slots_of_map platform q m) ≡ false
  unfolding slots_of_map
  closed-map q (ok none) target h = refl
  closed-map q (ok (some m)) target h = rw (h, slots_of_map)
  closed-map q (err e) target h = refl

  -- Whatever the query, the edge functions find a start available exactly when the core engine does
  -- on the same query; which has no blackouts, and whose rules have no season, since the types of the
  -- edge functions have neither.
  pub edge_is_slot_available-same :
      (q : EdgeQuery) (start : String)
      → edge_is_slot_available platform q start ≡ is_slot_available platform (as_query q) start
  unfolding edge_is_slot_available is_slot_available
  edge_is_slot_available-same q start = elim (Option-cases (parse start)) [
    | inl e ↦ rw (e, is_slot_available, edge_is_slot_available)
    | inr (target, e) ↦ elim (Option-cases (read_holds platform q.existing)) [
      | inl h ↦
          let closed = Unread-closed platform (as_query q) (inr (inr (inl h))) in
          rw (closed.1 start) (
            rw (e, edge_is_slot_available)
              (unfold edge_compute_slots in
                closed-map q (capacity_by_start_map platform q) target h))
      | inr (holds, h) ↦
          rw (e, is_slot_available, edge_is_slot_available) (rw (compute-same q holds h) refl)
    ]
  ]

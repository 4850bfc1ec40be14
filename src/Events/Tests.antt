-- ===== src/Events/Tests.antt =====
-- A delivery that fails once, with instants 0 to 2.
use booking_lumin_checkout.Base.{
  ℕ, ◌≤◌, ◌+◌, ◌*◌, ◌&&◌, leb, String, true, false, ◌≡◌, ◌==◌, refl, Option, none, some, List, [],
  ◌∷◌, length, nat_eq, nat_eq_iff, same_some, subst, inl, inr, Bool-cases, is_some, arith,
  if◌then◌else◌,
}
use booking_lumin_checkout.Base.Int.{pos, pos_part, ◌-ℤ◌, ◌*ℤ◌, floor_div}
use booking_lumin_checkout.Availability.Dates.{text_eq}
use booking_lumin_checkout.I18n.Currency.{digits, digits_from, read_digits, trim_start, trim_end}
use booking_lumin_checkout.Events.Verify.{
  CodeUnits, Timestamps, verify_signature, build_header, split_commas, cut_equals, signed_units,
  parse_signature_header, whole, distance,
}
use booking_lumin_checkout.Events.Replay.{verify_signature-build}
use booking_lumin_checkout.Base.Result.{ok}
use booking_lumin_checkout.Base.Decimal.{decimal, decimal_from}
use Prim.Native.String
use booking_lumin_checkout.Events.Webhooks.{
  EventFilter, WebhookSubscription, WebhookEventEnvelope, DeliveryStatus, DeliveryOutcome,
  match_subscriptions,
}
use booking_lumin_checkout.Events.Signature.{build_signature_header}
use booking_lumin_checkout.Events.Dispatch.{
  Runtime, DispatchInput, Provider, dispatch_until_settled, compute_next_retry_at_ms,
}
use booking_lumin_checkout.Events.History.{History, limit, redeliver, redeliver-IsHistory}
use booking_lumin_checkout.Events.Settled.{
  EndsSettled, last_tick, dispatch_until_settled-EndsSettled,
}

events : Unit {0}
unfolding dispatch_until_settled last_tick redeliver match_subscriptions decimal decimal_from
    build_signature_header compute_next_retry_at_ms
events = tt

abbrev render : ℕ → Option String
render t =
    if nat_eq t 0
    then some "0"
    else if nat_eq t 1
    then some "1"
    else if nat_eq t 2
    then some "2"
    else none

abbrev read : String → Option ℕ
read s = if s == "0" then some 0 else if s == "1" then some 1 else if s == "2" then some 2 else none

read-render : (t : ℕ) (s : String) → render t ≡ some s → read s ≡ some t
read-render t s h = elim (Bool-cases (nat_eq t 0)) [
  | inl e ↦ subst (λ s. read s ≡ some t) (same_some (rw e at h)) (rw ((nat_eq_iff t 0).0 e) refl)
  | inr e ↦ elim (Bool-cases (nat_eq t 1)) [
    | inl f ↦
        subst (λ s. read s ≡ some t) (same_some (rw (e, f) at h)) (rw ((nat_eq_iff t 1).0 f) refl)
    | inr f ↦ elim (Bool-cases (nat_eq t 2)) [
      | inl g ↦
          subst (λ s. read s ≡ some t) (same_some (rw (e, f, g) at h))
            (rw ((nat_eq_iff t 2).0 g) refl)
      | inr g ↦ absurd (let k = rw (e, f, g) at h in cc)
    ]
  ]
]

abbrev runtime : Runtime String
runtime = record {
  to_iso = render;
  parse = read;
  serialize = λ e. e.data_of;
  hmac = λ secret message. String.◌++◌ secret message;
  parse-to_iso = read-render;
}

abbrev event : WebhookEventEnvelope String
event = record {
  id = "e1";
  name = "booking.confirmed";
  tenant_id = "t1";
  occurred_at = "0";
  data_of = "{}";
}

abbrev endpoint : WebhookSubscription
endpoint = record {
  id = "s1";
  tenant_id = "t1";
  url = "https://example.test";
  event_filter = EventFilter.wildcard;
  active = true;
  signing_secret_ref = "ref";
  created_at = "0";
  updated_at = "0";
}

abbrev input : DispatchInput String
input = record {
  policy = record { max_attempts = some 2; base_retry_ms = some 1; backoff_factor = some 1 };
  envelope = event;
  subscription = endpoint;
  secret = "k";
}

abbrev fails : Provider String
fails d = some (record { delivery_id = none; is_delivered = false })

rendered : (t : ℕ) → t ≤ last_tick input.policy 0 (limit input.policy) 0 → is_some (render t) ≡ true
unfolding events
rendered t h = ground arith

dispatch_until_settled-EndsSettled_example :
    (os : List DeliveryOutcome) × (dispatch_until_settled runtime input (λ tick. fails) none 0 none
      ≡ ok os)
    × EndsSettled os
    × (length os ≤ 2)
dispatch_until_settled-EndsSettled_example =
    dispatch_until_settled-EndsSettled runtime input (λ tick. fails) 0 refl (λ tick d. refl)
      rendered

abbrev failed_twice : DeliveryOutcome
failed_twice = record {
  subscription_id = "s1";
  envelope_id = "e1";
  idempotency_key = "whd_s1:e1";
  status = DeliveryStatus.dead_letter;
  attempts =
      record { attempt = 1; is_delivered = false; at = "0"; delivery_id = none }
      ∷ (record { attempt = 2; is_delivered = false; at = "1"; delivery_id = none } ∷ []);
  next_retry_at = none;
  dead_lettered = true;
}

twice :
    redeliver runtime input ((fails, 0) ∷ ((fails, 1) ∷ ((fails, 2) ∷ []))) none ≡ some failed_twice
unfolding events
twice = refl

redeliver-IsHistory_example : History 2 DeliveryStatus.dead_letter failed_twice.attempts none true
redeliver-IsHistory_example =
    redeliver-IsHistory runtime input ((fails, 0) ∷ ((fails, 1) ∷ ((fails, 2) ∷ []))) twice

other_tenant : match_subscriptions event (record endpoint { tenant_id = "t2" } ∷ []) ≡ []
unfolding events
other_tenant = refl

-- A reader of decimal numbers, and a HMAC that adds up what it is given.
abbrev whole_seconds : Timestamps
whole_seconds = record {
  number = λ text. some (whole (read_digits 0 text));
  shown = λ t. digits (pos_part t.numerator);
}

abbrev total : CodeUnits → ℕ
total [] = 0
total (c ∷ s) = c + total s

abbrev sum_mac : CodeUnits → CodeUnits → CodeUnits
sum_mac secret message = digits (total secret * 7 + total message)

signed_in_window :
    verify_signature whole_seconds sum_mac
      (104 ∷ (105 ∷ []))
      (some (build_header sum_mac (104 ∷ (105 ∷ [])) (107 ∷ []) 1000))
      (107 ∷ [])
      (pos 1_300_999)
      none
    ≡ true
unfolding verify_signature build_header digits digits_from read_digits ◌-ℤ◌ floor_div text_eq
    split_commas cut_equals parse_signature_header trim_start trim_end ◌*ℤ◌
signed_in_window = refl

verify_signature-build_example :
    verify_signature whole_seconds sum_mac
      (104 ∷ [])
      (some (build_header sum_mac (104 ∷ (105 ∷ [])) (107 ∷ []) 1000))
      (107 ∷ [])
      (pos 1_300_999)
      none
    ≡ (leb (distance (floor_div (pos 1_300_999) 1000) (pos 1000)) 300
        && text_eq
            (sum_mac (107 ∷ []) (signed_units (digits 1000) (104 ∷ (105 ∷ []))))
            (sum_mac (107 ∷ []) (signed_units (digits 1000) (104 ∷ []))))
unfolding digits digits_from read_digits
verify_signature-build_example =
    verify_signature-build whole_seconds sum_mac (104 ∷ (105 ∷ [])) (107 ∷ []) (104 ∷ []) (107 ∷ [])
      1000 (pos 1_300_999) none (refl, (refl, (refl, (refl, tt)))) refl refl

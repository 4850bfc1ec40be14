-- ===== src/Events/Dispatch.antt =====
-- packages/events/src/delivery.ts and dispatch.ts. Instants are whole milliseconds from 1970 on and
-- delays are whole. A provider is a function from a delivery to its answer, none where the call
-- rejects; it is called again at each tick, so a run takes one for each tick.
use booking_lumin_checkout.Base.{
  ℕ, zero, suc, ◌+◌, ◌*◌, ◌/◌, ◌^◌, ◌-◌, String, Bool, true, false, not, ◌==◌, ◌≡◌, Option, none,
  some, List, [], ◌∷◌, ◌++◌, length, leb, or_else, if◌then◌else◌,
}
use Prim.Native.String
use booking_lumin_checkout.Base.Result.{Result, ok, err, ◌>>=◌, ◌>>◌, throw_if}
use booking_lumin_checkout.Events.Webhooks.{
  WebhookSubscription, WebhookEventEnvelope, SignedWebhookDelivery, DeliveryStatus, DeliveryAttempt,
  DeliveryOutcome,
}
use booking_lumin_checkout.Events.Signature.{build_signature_header}

pub record RetryPolicy : Type 0 where
  pub max_attempts : Option ℕ
  pub base_retry_ms : Option ℕ
  pub backoff_factor : Option ℕ

abbrev pub default_max_attempts : ℕ
default_max_attempts = 5

abbrev pub ceiling : RetryPolicy → ℕ
ceiling policy = or_else policy.max_attempts default_max_attempts

-- The delay after a failed attempt, which counts from one.
unfoldable pub next_retry_delay_ms : ℕ → RetryPolicy → ℕ
next_retry_delay_ms attempt policy =
    or_else policy.base_retry_ms 1000 * or_else policy.backoff_factor 2 ^ (attempt - 1)

unfoldable pub compute_next_retry_at_ms : ℕ → ℕ → RetryPolicy → ℕ
unfolding next_retry_delay_ms
compute_next_retry_at_ms attempt now policy = now + next_retry_delay_ms attempt policy

-- What Date, JSON and node:crypto do. `toISOString` throws on an instant out of its range.
pub record Runtime (D : Type 0) : Type 0 where
  pub to_iso : ℕ → Option String
  pub parse : String → Option ℕ
  pub serialize : WebhookEventEnvelope D → String
  pub hmac : String → String → String
  -- A rendered instant reads back as itself.
  pub parse-to_iso : (t : ℕ) (s : String) → to_iso t ≡ some s → parse s ≡ some t

pub data Fault : Type 0 where
  tenant_isolation invalid_time provider_rejected : Fault

pub record DeliveryResult : Type 0 where
  pub delivery_id : Option String
  pub is_delivered : Bool

abbrev pub Provider : Type 0 → Type 0
Provider D = SignedWebhookDelivery D → Option DeliveryResult

-- The fields of the input that stay the same from tick to tick.
pub record DispatchInput (D : Type 0) : Type 0 where
  pub policy : RetryPolicy
  pub envelope : WebhookEventEnvelope D
  pub subscription : WebhookSubscription
  pub secret : String

abbrev pub delivery_idempotency_key : String → String → String
delivery_idempotency_key subscription envelope =
    String.◌++◌ "whd_" (String.◌++◌ subscription (String.◌++◌ ":" envelope))

abbrev pub or_throw {ℓ} : {A : Type ℓ} → Option A → Fault → Result Fault A
or_throw none e = err e
or_throw (some a) e = ok a

abbrev pub is_settled : DeliveryStatus → Bool
is_settled DeliveryStatus.delivered = true
is_settled DeliveryStatus.dead_letter = true
is_settled _ = false

-- What `dispatch` returns: the prior outcome itself, or a new one.
pub data Dispatched : Type 0 where
  unchanged : DeliveryOutcome → Dispatched
  attempted : DeliveryOutcome → Dispatched

abbrev pub attempts_of : Option DeliveryOutcome → List DeliveryAttempt
attempts_of none = []
attempts_of (some o) = o.attempts

-- The prior outcome, if it is settled.
abbrev pub settled_prior : Option DeliveryOutcome → Option DeliveryOutcome
settled_prior none = none
settled_prior (some o) = if is_settled o.status then some o else none

abbrev pub read_time : (String → Option ℕ) → Option String → Option ℕ
read_time parse none = none
read_time parse (some s) = parse s

-- The body of the loop after `dispatch`, and `rest` from the next tick on.
abbrev pub go_on :
    (String → Option ℕ)
    → (ℕ → DeliveryOutcome → Result Fault (List DeliveryOutcome))
    → Dispatched
    → Result Fault (List DeliveryOutcome)
go_on parse rest (Dispatched.unchanged o) = ok []
go_on parse rest (Dispatched.attempted o) =
    if is_settled o.status
    then ok (o ∷ [])
    else (or_throw (read_time parse o.next_retry_at) Fault.invalid_time >>= λ later.
        rest later o >>= λ os. ok (o ∷ os))

module _ {D : Type 0} (rt : Runtime D) where
  unfoldable pub build_delivery : DispatchInput D → ℕ → Result Fault (SignedWebhookDelivery D)
  unfolding build_signature_header
  build_delivery input now =
      let envelope = input.envelope in
      let subscription = input.subscription in
      let body = rt.serialize envelope in
      let timestamp = now / 1000 in
      let signature = build_signature_header rt.hmac body input.secret timestamp in
      let key = delivery_idempotency_key subscription.id envelope.id in
      throw_if (not (subscription.tenant_id == envelope.tenant_id)) Fault.tenant_isolation
      >> ok (record {
        tenant_id = envelope.tenant_id;
        event = envelope.name;
        payload = envelope;
        subscription_id = subscription.id;
        url = subscription.url;
        idempotency_key = key;
        timestamp = timestamp;
        body = body;
        signature = signature;
        headers =
            ("content-type", "application/json")
            ∷ (("x-lumin-signature", signature)
                ∷ (("x-lumin-idempotency-key", key) ∷ (("x-lumin-event", envelope.name) ∷ [])));
      })

  abbrev outcome :
      DispatchInput D
      → List DeliveryAttempt
      → DeliveryStatus
      → Option String
      → Bool
      → DeliveryOutcome
  outcome input attempts status next dead = record {
    subscription_id = input.subscription.id;
    envelope_id = input.envelope.id;
    idempotency_key = delivery_idempotency_key input.subscription.id input.envelope.id;
    status = status;
    attempts = attempts;
    next_retry_at = next;
    dead_lettered = dead;
  }

  -- The outcome of an attempt that was made.
  unfoldable pub conclude :
      DispatchInput D → ℕ → List DeliveryAttempt → DeliveryResult → Result Fault DeliveryOutcome
  unfolding compute_next_retry_at_ms
  conclude input now prior result = do
    let number = length prior + 1
    at' ← or_throw (rt.to_iso now) Fault.invalid_time
    let attempts =
        prior
        ++ (record {
          attempt = number;
          is_delivered = result.is_delivered;
          at = at';
          delivery_id = result.delivery_id;
        }
            ∷ [])
    if result.is_delivered
        then ok (outcome input attempts DeliveryStatus.delivered none false)
        else if leb (ceiling input.policy) number
        then ok (outcome input attempts DeliveryStatus.dead_letter none true)
        else (or_throw (rt.to_iso (compute_next_retry_at_ms number now input.policy))
              Fault.invalid_time
            >>= λ next. ok (outcome input attempts DeliveryStatus.failed (some next) false))

  unfoldable pub attempt_delivery :
      DispatchInput D → Provider D → ℕ → List DeliveryAttempt → Result Fault DeliveryOutcome
  unfolding build_delivery conclude
  attempt_delivery input provider now prior = do
    delivery ← build_delivery input now
    result ← or_throw (provider delivery) Fault.provider_rejected
    conclude input now prior result

  abbrev dispatch_after :
      DispatchInput D
      → Provider D
      → ℕ
      → List DeliveryAttempt
      → Option DeliveryOutcome
      → Result Fault Dispatched
  dispatch_after input provider now prior (some done) = ok (Dispatched.unchanged done)
  dispatch_after input provider now prior none =
      attempt_delivery input provider now prior >>= λ o. ok (Dispatched.attempted o)

  unfoldable pub dispatch :
      DispatchInput D → Provider D → ℕ → Option DeliveryOutcome → Result Fault Dispatched
  unfolding attempt_delivery
  dispatch input provider now prior =
      dispatch_after input provider now (attempts_of prior) (settled_prior prior)

  -- The loop, for a number of ticks; `providers` answers at each. An instant that cannot be read would
  -- be NaN, whose `toISOString` throws at the next tick.
  unfoldable pub tick_loop :
      DispatchInput D
      → (ℕ → Provider D)
      → (fuel tick now : ℕ) → Option DeliveryOutcome
      → Result Fault (List DeliveryOutcome)
  unfolding dispatch
  tick_loop input providers zero tick now prior = ok []
  tick_loop input providers (suc fuel) tick now prior =
      let rest : ℕ → DeliveryOutcome → Result Fault (List DeliveryOutcome) =
        λ later o. tick_loop input providers fuel (suc tick) later (some o) in
      dispatch input (providers tick) now prior >>= go_on rt.parse rest

  unfoldable pub dispatch_until_settled :
      DispatchInput D
      → (ℕ → Provider D)
      → Option ℕ
      → ℕ
      → Option DeliveryOutcome
      → Result Fault (List DeliveryOutcome)
  unfolding tick_loop
  dispatch_until_settled input providers max_ticks now prior =
      tick_loop input providers (or_else max_ticks (ceiling input.policy + 1)) 0 now prior

-- ===== src/Events/Webhooks.antt =====
-- packages/contracts/src/webhooks.ts and packages/events/src/match.ts: subscriptions, envelopes and
-- the outcome of a delivery. `D` is the type of the data in an envelope.
use booking_lumin_checkout.Base.{
  ℕ, String, Bool, true, false, not, ◌==◌, Option, List, any, keep, if◌then◌else◌,
}
use booking_lumin_checkout.Base.Dict.{Dict}

pub data EventFilter : Type 0 where
  wildcard : EventFilter
  names : List String → EventFilter

pub record WebhookSubscription : Type 0 where
  pub id : String
  pub tenant_id : String
  pub url : String
  pub event_filter : EventFilter
  pub active : Bool
  pub signing_secret_ref : String
  pub created_at : String
  pub updated_at : String

pub record WebhookEventEnvelope (D : Type 0) : Type 0 where
  pub id : String
  pub name : String
  pub tenant_id : String
  pub occurred_at : String
  pub data_of : D

pub record SignedWebhookDelivery (D : Type 0) : Type 0 where
  pub tenant_id : String
  pub event : String
  pub payload : WebhookEventEnvelope D
  pub subscription_id : String
  pub url : String
  pub idempotency_key : String
  pub timestamp : ℕ
  pub body : String
  pub signature : String
  pub headers : Dict String

pub data DeliveryStatus : Type 0 where
  pending delivered failed dead_letter : DeliveryStatus

pub record DeliveryAttempt : Type 0 where
  pub attempt : ℕ
  pub is_delivered : Bool
  pub at : String
  pub delivery_id : Option String

pub record DeliveryOutcome : Type 0 where
  pub subscription_id : String
  pub envelope_id : String
  pub idempotency_key : String
  pub status : DeliveryStatus
  pub attempts : List DeliveryAttempt
  pub next_retry_at : Option String
  pub dead_lettered : Bool

abbrev pub filter_hits : EventFilter → String → Bool
filter_hits EventFilter.wildcard name = true
filter_hits (EventFilter.names ns) name = any (λ n. n == name) ns

module _ {D : Type 0} where
  unfoldable pub subscription_matches : WebhookSubscription → WebhookEventEnvelope D → Bool
  subscription_matches subscription event =
      if not subscription.active
      then false
      else if not (subscription.tenant_id == event.tenant_id)
      then false
      else filter_hits subscription.event_filter event.name

  unfoldable pub match_subscriptions :
      WebhookEventEnvelope D → List WebhookSubscription → List WebhookSubscription
  unfolding subscription_matches
  match_subscriptions event subscriptions = keep (λ s. subscription_matches s event) subscriptions

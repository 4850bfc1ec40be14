-- ===== src/Events/Isolation.antt =====
-- packages/events/src/match.ts and delivery.ts: whose subscriptions an event reaches.
use booking_lumin_checkout.Base.{
  ℕ, String, true, ◌≡◌, List, keep, keep-All, All, All-imp, arith, eq_iff,
}
use booking_lumin_checkout.Base.Result.{ok}
use booking_lumin_checkout.Events.Webhooks.{
  WebhookSubscription, WebhookEventEnvelope, SignedWebhookDelivery, subscription_matches,
  match_subscriptions, filter_hits,
}
use booking_lumin_checkout.Events.Dispatch.{RetryPolicy, Runtime, build_delivery}
use booking_lumin_checkout.Events.Settled.{build_delivery-ok}

matches-same :
    {D : Type 0} (s : WebhookSubscription) (event : WebhookEventEnvelope D)
    → subscription_matches s event ≡ true
    → (s.active ≡ true)
      × (s.tenant_id ≡ event.tenant_id)
      × (filter_hits s.event_filter event.name ≡ true)
unfolding subscription_matches
matches-same s event h =
    (ground arith, (eq_iff s.tenant_id event.tenant_id).0 (ground arith), ground arith)

-- Every subscription that `matchSubscriptions` returns for an event is active, of the event's tenant and
-- has a filter that the event's name hits, and for it a delivery of the event is built at any time and
-- with any secret: the guard on the tenants does not throw.
pub match_subscriptions-same :
    {D : Type 0} (rt : Runtime D) (policy : RetryPolicy) (secret : String) (now : ℕ)
    (event : WebhookEventEnvelope D) (subscriptions : List WebhookSubscription)
    → All
        (λ (s : WebhookSubscription).
          ((s.active ≡ true)
            × (s.tenant_id ≡ event.tenant_id)
            × (filter_hits s.event_filter event.name ≡ true))
          × ((d : SignedWebhookDelivery D) × (build_delivery rt
                  (record { policy = policy; envelope = event; subscription = s; secret = secret })
                  now
                ≡ ok d)))
        (match_subscriptions event subscriptions)
unfolding match_subscriptions
match_subscriptions-same rt policy secret now event subscriptions =
    All-imp _ _ (keep (λ s. subscription_matches s event) subscriptions)
      (λ s h. let m = matches-same s event h in (m, build_delivery-ok rt _ now m.1))
      (keep-All (λ s. subscription_matches s event) subscriptions)

-- ===== src/Events/Settled.antt =====
-- packages/events/src/dispatch.ts: `dispatchUntilSettled` reaches the end of a delivery.
use booking_lumin_checkout.Base.{
  ℕ, zero, suc, ◌+◌, ◌-◌, ◌≤◌, ◌<◌, String, true, false, ◌==◌, ◌≡◌, refl, sym, subst, inl, inr, ◌⊎◌,
  Option, none, some, List, [], ◌∷◌, length, is_some, leb, arith, Bool-cases, eq_iff,
}
use booking_lumin_checkout.Base.Result.{Result, ok, ◌>>=◌}
use booking_lumin_checkout.Events.Webhooks.{SignedWebhookDelivery, DeliveryAttempt, DeliveryOutcome}
use booking_lumin_checkout.Events.Dispatch.{
  RetryPolicy, Runtime, Fault, Provider, DeliveryResult, DispatchInput, Dispatched, ceiling,
  or_throw, is_settled, attempts_of, settled_prior, build_delivery, conclude, attempt_delivery,
  dispatch, read_time, go_on, tick_loop, dispatch_until_settled, compute_next_retry_at_ms,
}
use booking_lumin_checkout.Events.History.{limit, length_snoc}

-- The last instant of a schedule of `k` more attempts after `n`, each a retry later than the one
-- before.
unfoldable pub last_tick : RetryPolicy → (n k now : ℕ) → ℕ
last_tick policy n zero now = now
last_tick policy n (suc k) now =
    last_tick policy (n + 1) k (compute_next_retry_at_ms (n + 1) now policy)

last_tick-later : (policy : RetryPolicy) (n k now : ℕ) → now ≤ last_tick policy n k now
unfolding last_tick compute_next_retry_at_ms
last_tick-later policy n zero now = omega arith
last_tick-later policy n (suc k) now =
    let h = last_tick-later policy (n + 1) k (compute_next_retry_at_ms (n + 1) now policy) in
    omega arith

-- The outcomes of a run that ends settled, and only there.
pub EndsSettled : List DeliveryOutcome → Type 0
EndsSettled [] = ⊥
EndsSettled (o ∷ []) = is_settled o.status ≡ true
EndsSettled (o ∷ (o' ∷ os)) = (is_settled o.status ≡ false) × EndsSettled (o' ∷ os)

EndsSettled-cons :
    (o : DeliveryOutcome) (os : List DeliveryOutcome)
    → is_settled o.status ≡ false
    → EndsSettled os
    → EndsSettled (o ∷ os)
unfolding EndsSettled
EndsSettled-cons o [] h e = absurd e
EndsSettled-cons o (o' ∷ os) h e = (h, e)

some-or_throw {ℓ} :
    {A : Type ℓ} (o : Option A) (e : Fault)
    → is_some o ≡ true
    → (a : A) × (o ≡ some a) × (or_throw o e ≡ ok a)
some-or_throw none e h = absurd (cc)
some-or_throw (some a) e h = (a, refl, refl)

module _ {D : Type 0} (rt : Runtime D) (input : DispatchInput D) where
  -- What an attempt gives: a settled outcome, or one with a retry at the next instant.
  abbrev Goes : ℕ → List DeliveryAttempt → Result Fault DeliveryOutcome → Type 0
  Goes now prior r =
      (o : DeliveryOutcome) × (r ≡ ok o)
      × ((is_settled o.status ≡ true)
          ⊎ ((is_settled o.status ≡ false)
              × (length prior + 1 < limit input.policy)
              × (length o.attempts ≡ length prior + 1)
              × ((s : String) × (o.next_retry_at ≡ some s)
                  × (rt.parse s
                      ≡ some (compute_next_retry_at_ms (length prior + 1) now input.policy)))))

  conclude-Goes :
      (now : ℕ) (prior : List DeliveryAttempt) (result : DeliveryResult)
      → is_some (rt.to_iso now) ≡ true
      → is_some (rt.to_iso (compute_next_retry_at_ms (length prior + 1) now input.policy)) ≡ true
      → Goes now prior (conclude rt input now prior result)
  unfolding conclude
  conclude-Goes now prior result h k =
      let (at', _, e) = some-or_throw (rt.to_iso now) Fault.invalid_time h in
      elim (Bool-cases result.is_delivered) [
        | inl t ↦ rw (e, t) (_, refl, inl refl)
        | inr f ↦ elim (Bool-cases (leb (ceiling input.policy) (length prior + 1))) [
          | inl t ↦ rw (e, f, t) (_, refl, inl refl)
          | inr g ↦
              let (s, known, e') =
                some-or_throw
                  (rt.to_iso (compute_next_retry_at_ms (length prior + 1) now input.policy))
                  Fault.invalid_time k in
              rw (e, f, g, e')
                (
                  _,
                  refl,
                  inr (
                    refl,
                    ground arith,
                    length_snoc prior _,
                    (s, refl, rt.parse-to_iso _ s known),
                  ),
                )
        ]
      ]

  pub build_delivery-ok :
      (now : ℕ)
      → input.subscription.tenant_id ≡ input.envelope.tenant_id
      → (d : SignedWebhookDelivery D) × (build_delivery rt input now ≡ ok d)
  unfolding build_delivery
  build_delivery-ok now same =
      let t : (input.subscription.tenant_id == input.envelope.tenant_id) ≡ true =
        (eq_iff _ _).1 same in
      rw t (_, refl)

  go_on-later :
      (rest : ℕ → DeliveryOutcome → Result Fault (List DeliveryOutcome)) (o : DeliveryOutcome)
      (later : ℕ) (s : String)
      → is_settled o.status ≡ false
      → o.next_retry_at ≡ some s
      → rt.parse s ≡ some later
      → go_on rt.parse rest (Dispatched.attempted o) ≡ (rest later o >>= λ os. ok (o ∷ os))
  go_on-later rest o later s f n q =
      let e : or_throw (read_time rt.parse o.next_retry_at) Fault.invalid_time ≡ ok later =
        read o.next_retry_at n in
      rw (f, e) refl
    where
      read :
          (next : Option String)
          → next ≡ some s
          → or_throw (read_time rt.parse next) Fault.invalid_time ≡ ok later
      read next h = rw (h, q) refl

  unsettled_prior :
      (o : DeliveryOutcome) → is_settled o.status ≡ false → settled_prior (some o) ≡ none
  unsettled_prior o f = rw f refl

  module _ (same : input.subscription.tenant_id ≡ input.envelope.tenant_id)
      (providers : ℕ → Provider D)
      (answers : (tick : ℕ) (d : SignedWebhookDelivery D) → is_some (providers tick d) ≡ true) where
    attempt_delivery-Goes :
        (tick now : ℕ) (prior : List DeliveryAttempt)
        → is_some (rt.to_iso now) ≡ true
        → is_some (rt.to_iso (compute_next_retry_at_ms (length prior + 1) now input.policy)) ≡ true
        → Goes now prior (attempt_delivery rt input (providers tick) now prior)
    unfolding attempt_delivery
    attempt_delivery-Goes tick now prior h k =
        let (d, e) = build_delivery-ok now same in
        let (r, _, e') =
          some-or_throw (providers tick d) Fault.provider_rejected (answers tick d) in
        rw (e, e') (conclude-Goes now prior r h k)

    abbrev Ends : ℕ → Result Fault (List DeliveryOutcome) → Type 0
    Ends k r = (os : List DeliveryOutcome) × (r ≡ ok os) × EndsSettled os × (length os ≤ k)

    dispatched :
        (tick now : ℕ) (prior : Option DeliveryOutcome) (o : DeliveryOutcome)
        → settled_prior prior ≡ none
        → attempt_delivery rt input (providers tick) now (attempts_of prior) ≡ ok o
        → dispatch rt input (providers tick) now prior ≡ ok (Dispatched.attempted o)
    unfolding dispatch
    dispatched tick now prior o s e = rw (s, e) refl

    onward :
        (o : DeliveryOutcome) (k : ℕ) (r : Result Fault (List DeliveryOutcome))
        → is_settled o.status ≡ false
        → Ends k r
        → Ends (suc k) (r >>= λ os. ok (o ∷ os))
    onward o k r u (os, e, ends, short) =
        rw e (o ∷ os, refl, EndsSettled-cons o os u ends, omega arith)

    -- After an attempt, if the rest of the loop ends where it goes on.
    go_on-Ends :
        (rest : ℕ → DeliveryOutcome → Result Fault (List DeliveryOutcome)) (k now : ℕ)
        (prior : List DeliveryAttempt) (r : Result Fault DeliveryOutcome)
        → length prior + suc k ≡ limit input.policy
        → (goes : Goes now prior r)
        → ((k' : ℕ)
            → k ≡ suc k'
            → is_settled goes.0.status ≡ false
            → length goes.0.attempts ≡ length prior + 1
            → Ends
                (suc k')
                (rest (compute_next_retry_at_ms (length prior + 1) now input.policy) goes.0))
        → Ends (suc k) (go_on rt.parse rest (Dispatched.attempted goes.0))
    unfolding EndsSettled
    go_on-Ends rest k now prior r n (o, e, inl t) ih = rw t (o ∷ [], refl, t, omega arith)
    go_on-Ends rest zero now prior r n (o, e, inr (u, room, len, (s, next, read))) ih =
        absurd (omega arith)
    go_on-Ends rest (suc k) now prior r n (o, e, inr (u, room, len, (s, next, read))) ih =
        subst (Ends (suc (suc k))) (sym (go_on-later rest o _ s u next read))
          (onward o (suc k) _ u (ih k refl u len))

    tick_loop-Ends :
        (fuel k tick now : ℕ) (prior : Option DeliveryOutcome)
        → settled_prior prior ≡ none
        → length (attempts_of prior) + suc k ≡ limit input.policy
        → suc k ≤ fuel
        → ((t : ℕ)
            → t ≤ last_tick input.policy (length (attempts_of prior)) (suc k) now
            → is_some (rt.to_iso t) ≡ true)
        → Ends (suc k) (tick_loop rt input providers fuel tick now prior)
    unfolding tick_loop last_tick
    tick_loop-Ends zero k tick now prior s n f iso = absurd (omega arith)
    tick_loop-Ends (suc fuel) k tick now prior s n f iso =
        let m = length (attempts_of prior) in
        let later = compute_next_retry_at_ms (m + 1) now input.policy in
        let goes =
          attempt_delivery-Goes tick now (attempts_of prior)
            (iso now (last_tick-later input.policy m (suc k) now))
            (iso later (last_tick-later input.policy (m + 1) k later)) in
        rw (dispatched tick now prior goes.0 s goes.1) (
          go_on-Ends (λ t o. tick_loop rt input providers fuel (suc tick) t (some o)) k now
            (attempts_of prior) _ n goes
            λ k' e u len.
              tick_loop-Ends fuel k' (suc tick) later (some goes.0) (unsettled_prior goes.0 u)
                (omega arith) (omega arith)
                (subst
                  (λ j.
                    (t : ℕ)
                    → t ≤ last_tick input.policy j (suc k') later
                    → is_some (rt.to_iso t) ≡ true)
                  (sym len)
                  (subst
                    (λ j.
                      (t : ℕ)
                      → t ≤ last_tick input.policy (m + 1) j later
                      → is_some (rt.to_iso t) ≡ true)
                    e iso)))

-- Where subscription and envelope are of one tenant, the provider answers every call, and dates up to
-- the last retry of the schedule can be rendered: `dispatchUntilSettled` with its own bound on ticks
-- returns, from no prior outcome, a list of outcomes of which the last is settled (delivered or
-- dead-lettered) and no other is, and which are at most as many as the ceiling of attempts (at most one,
-- if that is zero).
pub dispatch_until_settled-EndsSettled :
    {D : Type 0} (rt : Runtime D) (input : DispatchInput D) (providers : ℕ → Provider D) (now : ℕ)
    → input.subscription.tenant_id ≡ input.envelope.tenant_id
    → ((tick : ℕ) (d : SignedWebhookDelivery D) → is_some (providers tick d) ≡ true)
    → ((t : ℕ)
        → t ≤ last_tick input.policy 0 (limit input.policy) now
        → is_some (rt.to_iso t) ≡ true)
    → (os : List DeliveryOutcome) × (dispatch_until_settled rt input providers none now none
        ≡ ok os)
      × EndsSettled os
      × (length os ≤ limit input.policy)
unfolding dispatch_until_settled
dispatch_until_settled-EndsSettled rt input providers now same answers iso =
    let k = limit input.policy - 1 in
    let e : suc k ≡ limit input.policy = ground arith in
    let ends =
      tick_loop-Ends rt input same providers answers (ceiling input.policy + 1) k 0 now none refl
        (omega arith) (ground arith)
        (subst (λ j. (t : ℕ) → t ≤ last_tick input.policy 0 j now → is_some (rt.to_iso t) ≡ true)
          (sym e) iso) in
    subst
      (λ j.
        Ends rt input same providers answers j
          (dispatch_until_settled rt input providers none now none))
      e ends

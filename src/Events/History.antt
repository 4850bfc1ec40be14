-- ===== src/Events/History.antt =====
-- packages/events/src/dispatch.ts: what any sequence of calls of `dispatch` leaves in the outcome.
use booking_lumin_checkout.Base.{
  ℕ, ◌+◌, ◌<◌, String, Bool, true, false, ◌≡◌, refl, subst, ◌∙◌, inl, inr, Option, none, some, List,
  [], ◌∷◌, ◌++◌, length, length-append, All, All-append, is_some, leb, ltb, arith, Bool-cases,
  if◌then◌else◌,
}
use booking_lumin_checkout.Base.Result.{Result, ok, err, ◌>>=◌, ok-injective, >>=-elim}
use booking_lumin_checkout.Events.Webhooks.{DeliveryStatus, DeliveryAttempt, DeliveryOutcome}
use booking_lumin_checkout.Events.Dispatch.{
  RetryPolicy, Runtime, Fault, Provider, DeliveryResult, DispatchInput, Dispatched, ceiling,
  or_throw, is_settled, attempts_of, build_delivery, conclude, attempt_delivery, dispatch,
  compute_next_retry_at_ms,
}

-- A ceiling of zero lets one attempt through.
abbrev pub limit : RetryPolicy → ℕ
limit policy = if ltb (ceiling policy) 1 then 1 else ceiling policy

abbrev pub Failures : List DeliveryAttempt → Type 0
Failures = All (λ (a : DeliveryAttempt). a.is_delivered ≡ false)

-- The attempts of an outcome by its status, for at most `most` attempts.
unfoldable pub History :
    (most : ℕ) → DeliveryStatus → List DeliveryAttempt → Option String → Bool → Type 0
History most DeliveryStatus.delivered attempts next dead =
    ((fs : List DeliveryAttempt) × (a : DeliveryAttempt) × (attempts ≡ fs ++ (a ∷ []))
      × Failures fs
      × (a.is_delivered ≡ true)
      × (length fs < most))
    × (next ≡ none)
    × (dead ≡ false)
History most DeliveryStatus.failed attempts next dead =
    Failures attempts × (length attempts < most) × (is_some next ≡ true) × (dead ≡ false)
History most DeliveryStatus.dead_letter attempts next dead =
    Failures attempts × (length attempts ≡ most) × (next ≡ none) × (dead ≡ true)
History most DeliveryStatus.pending attempts next dead = ⊥

abbrev pub IsHistory : ℕ → DeliveryOutcome → Type 0
IsHistory most o = History most o.status o.attempts o.next_retry_at o.dead_lettered

pub length_snoc :
    (prior : List DeliveryAttempt) (a : DeliveryAttempt)
    → length (prior ++ (a ∷ [])) ≡ length prior + 1
length_snoc prior a = length-append prior (a ∷ [])

full :
    (n c : ℕ)
    → n < (if ltb c 1 then 1 else c)
    → leb c (n + 1) ≡ true
    → n + 1 ≡ (if ltb c 1 then 1 else c)
full n c h k = ground arith

room_left :
    (n c : ℕ)
    → n < (if ltb c 1 then 1 else c)
    → leb c (n + 1) ≡ false
    → n + 1 < (if ltb c 1 then 1 else c)
room_left n c h k = ground arith

module _ {D : Type 0} (rt : Runtime D) (input : DispatchInput D) where
  conclude-IsHistory :
      (now : ℕ) (prior : List DeliveryAttempt) (result : DeliveryResult) {o : DeliveryOutcome}
      → Failures prior
      → length prior < limit input.policy
      → conclude rt input now prior result ≡ ok o
      → IsHistory (limit input.policy) o
  unfolding conclude History
  conclude-IsHistory now prior result {o} fails room h =
      >>=-elim (or_throw (rt.to_iso now) Fault.invalid_time) _ h λ at' _ h1.
        elim (Bool-cases result.is_delivered) [
          | inl t ↦
              subst (IsHistory (limit input.policy)) (ok-injective (rw t at h1))
                ((prior, _, refl, fails, refl, room), refl, refl)
          | inr f ↦ elim (Bool-cases (leb (ceiling input.policy) (length prior + 1))) [
            | inl t ↦ subst (IsHistory (limit input.policy)) (ok-injective (rw (f, t) at h1)) (
              All-append _ prior _ fails (refl, tt),
              length_snoc prior _ ∙ full (length prior) (ceiling input.policy) room t,
              refl,
              refl,
            )
            | inr g ↦
                >>=-elim
                  (or_throw
                    (rt.to_iso (compute_next_retry_at_ms (length prior + 1) now input.policy))
                    Fault.invalid_time)
                  _ (rw (f, g) at h1)
                  λ next _ h2. subst (IsHistory (limit input.policy)) (ok-injective h2) (
                    All-append _ prior _ fails (refl, tt),
                    rw (length_snoc prior _)
                        (room_left (length prior) (ceiling input.policy) room g),
                    refl,
                    refl,
                  )
          ]
        ]

  attempt_delivery-IsHistory :
      (provider : Provider D) (now : ℕ) (prior : List DeliveryAttempt) {o : DeliveryOutcome}
      → Failures prior
      → length prior < limit input.policy
      → attempt_delivery rt input provider now prior ≡ ok o
      → IsHistory (limit input.policy) o
  unfolding attempt_delivery
  attempt_delivery-IsHistory provider now prior fails room h =
      >>=-elim (build_delivery rt input now) _ h λ delivery _ h1.
        >>=-elim (or_throw (provider delivery) Fault.provider_rejected) _ h1
          λ result _ h2. conclude-IsHistory now prior result fails room h2

  abbrev IsPrior : Option DeliveryOutcome → Type 0
  IsPrior none = Unit
  IsPrior (some o) = IsHistory (limit input.policy) o

  -- An outcome that is not settled has failures only, and room for another attempt.
  unsettled :
      (status : DeliveryStatus) (attempts : List DeliveryAttempt) (next : Option String)
      (dead : Bool)
      → is_settled status ≡ false
      → History (limit input.policy) status attempts next dead
      → Failures attempts × (length attempts < limit input.policy)
  unfolding History
  unsettled DeliveryStatus.failed attempts next dead e (f, r, _, _) = (f, r)
  unsettled DeliveryStatus.delivered attempts next dead e h = absurd (cc)
  unsettled DeliveryStatus.dead_letter attempts next dead e h = absurd (cc)
  unsettled DeliveryStatus.pending attempts next dead e h = absurd h

  -- The outcome that a caller holds after a call of `dispatch`: the old one where it throws.
  abbrev pub outcome_after :
      Option DeliveryOutcome → Result Fault Dispatched → Option DeliveryOutcome
  outcome_after prior (ok (Dispatched.unchanged o)) = some o
  outcome_after prior (ok (Dispatched.attempted o)) = some o
  outcome_after prior (err e) = prior

  -- Calls of `dispatch` in a row, each with what the one before left.
  unfoldable pub redeliver : List (Provider D × ℕ) → Option DeliveryOutcome → Option DeliveryOutcome
  unfolding dispatch
  redeliver [] prior = prior
  redeliver ((provider, now) ∷ calls) prior =
      redeliver calls (outcome_after prior (dispatch rt input provider now prior))

  attempt-IsPrior :
      (provider : Provider D) (now : ℕ) (prior : Option DeliveryOutcome)
      → IsPrior prior
      → Failures (attempts_of prior)
      → length (attempts_of prior) < limit input.policy
      → (r : Result Fault DeliveryOutcome)
      → attempt_delivery rt input provider now (attempts_of prior) ≡ r
      → IsPrior (outcome_after prior (r >>= λ o. ok (Dispatched.attempted o)))
  attempt-IsPrior provider now prior h fails room (ok o) e =
      attempt_delivery-IsHistory provider now (attempts_of prior) fails room e
  attempt-IsPrior provider now prior h fails room (err f) e = h

  dispatch-IsPrior :
      (provider : Provider D) (now : ℕ) (prior : Option DeliveryOutcome)
      → IsPrior prior
      → IsPrior (outcome_after prior (dispatch rt input provider now prior))
  unfolding dispatch
  dispatch-IsPrior provider now none h =
      attempt-IsPrior provider now none h tt (ground arith) _ refl
  dispatch-IsPrior provider now (some o) h = elim (Bool-cases (is_settled o.status)) [
    | inl t ↦ rw t h
    | inr f ↦
        let (fails, room) = unsettled o.status o.attempts o.next_retry_at o.dead_lettered f h in
        rw f (attempt-IsPrior provider now (some o) h fails room _ refl)
  ]

  redeliver-IsPrior :
      (calls : List (Provider D × ℕ)) (prior : Option DeliveryOutcome)
      → IsPrior prior
      → IsPrior (redeliver calls prior)
  unfolding redeliver
  redeliver-IsPrior [] prior h = h
  redeliver-IsPrior ((provider, now) ∷ calls) prior h =
      redeliver-IsPrior calls _ (dispatch-IsPrior provider now prior h)

  -- After any calls of `dispatch` for one subscription and envelope, each with the outcome that the one
  -- before returned, whatever the provider answered (a call that throws leaves the outcome as it was):
  -- the outcome is delivered after failures only and one success, or dead-lettered after as many
  -- failures as the ceiling says (one, if that is zero), or failed with fewer failures and a next
  -- retry. This counts the attempts that an outcome records; a call that throws records none.
  pub redeliver-IsHistory :
      (calls : List (Provider D × ℕ)) {o : DeliveryOutcome}
      → redeliver calls none ≡ some o
      → History (limit input.policy) o.status o.attempts o.next_retry_at o.dead_lettered
  redeliver-IsHistory calls h = subst IsPrior h (redeliver-IsPrior calls none tt)

-- ===== src/Booking/Cases.antt =====
-- packages/core/src/booking.ts: cases on the first step of an operation of the engine.
use booking_lumin_checkout.Base.{
  ℕ, ◌+◌, ◌≡◌, refl, String, Bool, true, false, Option, none, some, get_elem?, if◌then◌else◌,
}
use booking_lumin_checkout.Base.Result.{Result, ok, err}
use booking_lumin_checkout.Contracts.Booking.{BookingRecord}
use booking_lumin_checkout.Booking.Engine.{
  Fault, Options, State, M, monad, ◌>>=◌, ◌>>◌, lift, lift_result, guard, read, deref, tick,
}

-- Cases on the first step of an operation.
module _ {B : Type 0} (Q : Result Fault B × State → Type 0) where
  pub on_lift :
      {A : Type 0} (o : Option A) (e : Fault) (f : A → M B) (s : State)
      → (o ≡ none → Q (err e, s))
      → ((a : A) → o ≡ some a → Q (f a s))
      → Q ((lift o e >>= f) s)
  unfolding monad
  on_lift none e f s h k = h refl
  on_lift (some a) e f s h k = k a refl

  pub on_result :
      {A E : Type 0} (r : Result E A) (g : E → Fault) (f : A → M B) (s : State)
      → ((e : E) → r ≡ err e → Q (err (g e), s))
      → ((a : A) → r ≡ ok a → Q (f a s))
      → Q ((lift_result r g >>= f) s)
  unfolding monad
  on_result (err e) g f s h k = h e refl
  on_result (ok a) g f s h k = k a refl

  pub on_guard :
      (test : Bool) (e : Fault) (n : M B) (s : State)
      → (test ≡ true → Q (err e, s))
      → (test ≡ false → Q (n s))
      → Q ((guard test e >> n) s)
  unfolding monad
  on_guard true e n s h k = h refl
  on_guard false e n s h k = k refl

  pub on_deref :
      (ref : ℕ) (f : BookingRecord → M B) (s : State)
      → (get_elem? s.records ref ≡ none → Q (err Fault.dangling, s))
      → ((r : BookingRecord) → get_elem? s.records ref ≡ some r → Q (f r s))
      → Q ((deref ref >>= f) s)
  unfolding deref ◌>>=◌
  on_deref ref f s h k = on_lift (get_elem? s.records ref) Fault.dangling f s h k

  pub on_if :
      (test : Bool) (m n : M B) (s : State)
      → (test ≡ true → Q (m s))
      → (test ≡ false → Q (n s))
      → Q ((if test then m else n) s)
  on_if true m n s h k = h refl
  on_if false m n s h k = k refl

  pub on_read : (f : State → M B) (s : State) → Q (f s s) → Q ((read >>= f) s)
  unfolding monad
  on_read f s k = k

pub on_last :
    (Q : Result Fault (Unit {0}) × State → Type 0) (test : Bool) (e : Fault) (s : State)
    → (test ≡ true → Q (err e, s))
    → (test ≡ false → Q (ok tt, s))
    → Q (guard test e s)
unfolding guard
on_last Q true e s h k = h refl
on_last Q false e s h k = k refl

pub on_tick :
    (opts : Options) {B : Type 0} (Q : Result Fault B × State → Type 0) (f : String → M B)
    (s : State)
    → Q (f (opts.now s.ticks) (record s { ticks = s.ticks + 1 }))
    → Q ((tick opts >>= f) s)
unfolding tick ◌>>=◌
on_tick opts Q f s k = k

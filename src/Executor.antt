-- ===== src/Executor.antt =====
-- src/executor.rs: `block_on`. The future is the caller's, and `Parker` is crossbeam's: a schedule
-- says how many calls of `park` return. `none` is a call that does not end, or a panic.
pub mod Local
pub mod Debts
pub mod Finishing
use thread_pool.Prelude.{
  ℕ, zero, suc, ◌<◌, ◌≡◌, refl, Bool, true, false, Option, none, some, Result, ok, if◌then◌else◌,
  leb, arith,
}
use thread_pool.Pool.{ExecutionError}

-- `Poll::Pending` is `none`.
pub record Future {ℓ} (T : Type ℓ) : Type (ℓ ⊔ 1) where
  pub State : Type 0
  pub poll : State → Option T × State

module _ {ℓ} {T : Type ℓ} (fut : Future T) where
  -- The loop: a pending poll parks the thread.
  unfoldable pub poll_loop : ℕ → fut.State → Option T
  poll_loop zero s = (fut.poll s).0
  poll_loop (suc parks) s =
      let later = poll_loop parks (fut.poll s).1 in
      elim (fut.poll s).0 [ none ↦ later | some val ↦ some val ]

  abbrev as_ok : Option T → Option (Result T ExecutionError)
  as_ok none = none
  as_ok (some val) = some (ok val)

  -- The cache of a thread is borrowed while the thread is in a `block_on`.
  unfoldable pub block_on : (borrowed : Bool) → ℕ → fut.State → Option (Result T ExecutionError)
  unfolding poll_loop
  block_on borrowed parks s = if borrowed then none else as_ok (poll_loop parks s)

  -- The future after some polls.
  abbrev pub polled : ℕ → fut.State → fut.State
  polled zero s = s
  polled (suc n) s = polled n (fut.poll s).1

  poll_loop_waits :
      (n parks : ℕ) (s : fut.State) (val : T)
      → ((i : ℕ) → i < n → (fut.poll (polled i s)).0 ≡ none)
      → (fut.poll (polled n s)).0 ≡ some val
      → poll_loop parks s ≡ (if leb n parks then some val else none)
  unfolding poll_loop
  poll_loop_waits zero zero s val pending ready = ready
  poll_loop_waits zero (suc parks) s val pending ready = ground (arith, ready)
  poll_loop_waits (suc n) zero s val pending ready = ground (arith, pending 0 (omega arith))
  poll_loop_waits (suc n) (suc parks) s val pending ready =
      let first : (fut.poll s).0 ≡ none = pending 0 (omega arith) in
      ground (
        arith,
        first,
        poll_loop_waits n parks (fut.poll s).1 val
            (λ i below. pending (suc i) (omega (arith, below))) ready,
      )

  -- Let a future be pending for a number of polls and ready with a value at the next one. Then
  -- `block_on` returns that value if the thread is unparked at least as often, and else does not
  -- end; it never returns an error. Within another `block_on` of the same thread it panics.
  pub block_on_waits :
      (n parks : ℕ) (s : fut.State) (val : T)
      → ((i : ℕ) → i < n → (fut.poll (polled i s)).0 ≡ none)
      → (fut.poll (polled n s)).0 ≡ some val
      → (block_on false parks s ≡ (if leb n parks then some (ok val) else none))
        × (block_on true parks s ≡ none)
  unfolding block_on
  block_on_waits n parks s val pending ready =
      (ground (arith, poll_loop_waits n parks s val pending ready), refl)

-- ===== src/Pool/Sending.antt =====
-- src/pool.rs, `send_timeout`: the rounds that it takes.
use thread_pool.Prelude.{
  ℕ, zero, suc, ◌+◌, ◌%◌, ◌≤◌, ◌<◌, ◌≡◌, ◌≢◌, ◌⊎◌, inl, inr, refl, ◌||◌, none, some, Result-cases,
  Option-cases, Bool-cases, ◌==◌, ltb, arith,
}
use thread_pool.Model.{Message}
use thread_pool.Channel.{Channel, timeout, disconnected}
use thread_pool.Config.{TimeoutPolicy, direct_run, drop, lossy_retry}
use thread_pool.Worker.{Queue}
use thread_pool.Manager.Jobs.{at}
use thread_pool.Pool.{ThreadPool, wake_workers}
use thread_pool.Pool.Dispatch.{Sent, with_state, send_timeout_loop, send_timeout}

module _ (c : Channel) where
  wake_workers_policy : (p : ThreadPool c) → (wake_workers c p).timeout_policy ≡ p.timeout_policy
  unfolding wake_workers
  wake_workers_policy p = ground arith

  -- From a `retry` of r with a policy to drop, 6 - r rounds are enough, and one from 0.
  drop_ends :
      (fuel : ℕ) (chan : Queue × ℕ) (message : Message) (period retry : ℕ) (p : ThreadPool c)
      → p.timeout_policy ≡ drop
      → 0 < fuel
      → (retry ≡ 0) ⊎ (6 ≤ fuel + retry)
      → send_timeout_loop c fuel chan message period retry p ≢ none
  unfolding send_timeout_loop
  drop_ends zero chan message period retry p e h enough gone = omega arith
  drop_ends (suc fuel) chan message period retry p e h enough gone =
      let out = c.send_timeout message period (at c chan.0 p.queues) in
      let sent = with_state c chan.0 out.1 p in
      let same = wake_workers_policy sent in
      elim (Result-cases out.0) [
        | inl (done, r) ↦ ground arith
        | inr (disconnected msg, r) ↦ ground arith
        | inr (timeout msg, r) ↦ elim (Bool-cases (retry == 0 || ltb 4 retry)) [
          | inl last ↦ ground arith
          | inr again ↦
              drop_ends fuel chan msg period ((retry + 1) % 256) (wake_workers c sent)
                (ground arith) (ground arith) (inr (ground arith)) (ground arith)
        ]
      ]

  direct_ends :
      (fuel : ℕ) (chan : Queue × ℕ) (message : Message) (period retry : ℕ) (p : ThreadPool c)
      → p.timeout_policy ≡ direct_run
      → send_timeout_loop c (suc fuel) chan message period retry p ≢ none
  unfolding send_timeout_loop
  direct_ends fuel chan message period retry p e gone =
      let out = c.send_timeout message period (at c chan.0 p.queues) in
      let same = wake_workers_policy (with_state c chan.0 out.1 p) in
      elim (Result-cases out.0) [
        | inl (done, r) ↦ ground arith
        | inr (disconnected msg, r) ↦ ground arith
        | inr (timeout msg, r) ↦ ground arith
      ]

  Policy-cases :
      (policy : TimeoutPolicy) → policy ≢ lossy_retry → (policy ≡ drop) ⊎ (policy ≡ direct_run)
  Policy-cases direct_run h = inr refl
  Policy-cases drop h = inl refl
  Policy-cases lossy_retry h = absurd (h refl)

  -- Unless its policy is to evict and retry, a pool's `send_timeout` returns, whatever the channel
  -- does and whatever number of tries it starts from.
  pub send_timeout_ends :
      (chan : Queue × ℕ) (message : Message) (period retry : ℕ) (p : ThreadPool c)
      → p.timeout_policy ≢ lossy_retry
      → (s : Sent c) × (send_timeout c chan message period retry p ≡ some s)
  unfolding send_timeout
  send_timeout_ends chan message period retry p h =
      let ends : send_timeout_loop c 6 chan message period retry p ≢ none =
        elim (Policy-cases p.timeout_policy h) [
          | inl e ↦ drop_ends 6 chan message period retry p e (omega arith) (inr (omega arith))
          | inr e ↦ direct_ends 5 chan message period retry p e
        ] in
      elim (Option-cases (send_timeout_loop c 6 chan message period retry p)) [
        | inl gone ↦ absurd (ends gone)
        | inr s ↦ s
      ]

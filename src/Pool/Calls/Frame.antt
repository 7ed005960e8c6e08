-- ===== src/Pool/Calls/Frame.antt =====
-- src/pool.rs: sending a message to a pool leaves its workers alone.
use thread_pool.Prelude.{
  List, ap, Option, ℕ, zero, suc, ◌≡◌, refl, [], Bool, ◌||◌, some, Result-cases, Option-cases,
  Bool-cases, ◌⊎◌, ◌+◌, ◌%◌, Result, inl, inr, ◌==◌, ltb, arith,
}
use thread_pool.Model.{terminate, Message}
use thread_pool.Channel.{Channel, SendTimeoutError, TrySendError, timeout, disconnected}
use thread_pool.Config.{TimeoutPolicy, direct_run, drop, lossy_retry}
use thread_pool.Worker.{Queue}
use thread_pool.Manager
use thread_pool.Manager.{Manager}
use thread_pool.Manager.Jobs.{at, drop_many}
use thread_pool.Pool.{ThreadPool, wake_workers}
use thread_pool.Pool.Resizing.{send_terminate}
use thread_pool.Manager.Jobs.{Queues, put}
use thread_pool.Pool.Dispatch.{
  Sent, with_state, with_drops, send_timeout_loop, send_timeout, send, try_send, dispatch, pick,
}

-- The manager but for its log, the ends of the channels, the size and the timeout policy of a pool.
pub record Core : Type 0 where
  pub manager : Manager
  pub senders : Queue × Queue
  pub size : ℕ
  pub policy : TimeoutPolicy

-- And all the other settings.
pub record Frame : Type 0 where
  pub core : Core
  pub upgrade_threshold : ℕ
  pub auto_extend_threshold : ℕ
  pub auto_scale : Bool
  pub non_blocking : Bool
  pub queue_timeout : Option ℕ

Policy-cases :
    (policy : TimeoutPolicy) → (policy ≡ lossy_retry) ⊎ ((policy ≡ drop) ⊎ (policy ≡ direct_run))
Policy-cases direct_run = inr (inr refl)
Policy-cases drop = inr (inl refl)
Policy-cases lossy_retry = inl refl

module _ (c : Channel) where
  -- A pool without its queues, its settings, its status and what was asked of its threads.
  abbrev pub core : ThreadPool c → Core
  core p = record {
    manager = record p.manager { log = [] };
    senders = p.chan;
    size = p.init_size;
    policy = p.timeout_policy;
  }

  abbrev pub frame : ThreadPool c → Frame
  frame p = record {
    core = core p;
    upgrade_threshold = p.upgrade_threshold;
    auto_extend_threshold = p.auto_extend_threshold;
    auto_scale = p.auto_scale;
    non_blocking = p.non_blocking;
    queue_timeout = p.queue_timeout;
  }

  wake_workers-frame : (p : ThreadPool c) → frame (wake_workers c p) ≡ frame p
  unfolding wake_workers Manager.wake_up
  wake_workers-frame p = ground arith

  try_send-frame :
      (chan : Queue × ℕ) (message : Message) (p : ThreadPool c)
      → frame (try_send c chan message p).1 ≡ frame p
  unfolding try_send
  try_send-frame chan message p =
      let out = c.try_send message (at c chan.0 p.queues) in
      let woken = wake_workers-frame (with_state c chan.0 out.1 p) in
      elim (Result-cases out.0) [
        | inl (done, r) ↦ ground (arith, r)
        | inr (TrySendError.disconnected msg, r) ↦ ground (arith, r)
        | inr (TrySendError.full msg, r) ↦ ground (arith, r, woken)
      ]

  send_timeout_loop-frame :
      (fuel : ℕ) (chan : Queue × ℕ) (message : Message) (period retry : ℕ) (p : ThreadPool c)
      (s : Sent c)
      → send_timeout_loop c fuel chan message period retry p ≡ some s
      → frame s.1 ≡ frame p
  unfolding send_timeout_loop
  send_timeout_loop-frame zero chan message period retry p s e = absurd (ground arith)
  send_timeout_loop-frame (suc fuel) chan message period retry p s e =
      let out = c.send_timeout message period (at c chan.0 p.queues) in
      let sent = with_state c chan.0 out.1 p in
      let woken = wake_workers-frame sent in
      elim (Result-cases out.0) [
        | inl (done, r) ↦ ground (arith, r)
        | inr (disconnected msg, r) ↦ ground (arith, r)
        | inr (timeout msg, r) ↦ elim (Policy-cases p.timeout_policy) [
          | inl evicts ↦
              let awake = wake_workers c sent in
              let next = with_drops c (drop_many c chan.1 retry awake.manager awake.queues) awake in
              let rest = send_timeout_loop-frame fuel chan msg period ((retry + 1) % 256) next s in
              ground (arith, r, woken, evicts, rest)
          | inr (inl drops) ↦ elim (Bool-cases (retry == 0 || ltb 4 retry)) [
            | inl last ↦ ground (arith, r, woken, drops)
            | inr again ↦
                let rest =
                  send_timeout_loop-frame fuel chan msg period ((retry + 1) % 256)
                    (wake_workers c sent) s in
                ground (arith, r, woken, drops, rest)
          ]
          | inr (inr direct) ↦ ground (arith, r, woken, direct)
        ]
      ]

  pub dispatch-frame :
      (message : Message) (retry : ℕ) (with_priority : Bool) (p : ThreadPool c)
      (r : Result Bool SendTimeoutError) (q : ThreadPool c)
      → dispatch c message retry with_priority p ≡ some (r, q)
      → frame q ≡ frame p
  unfolding dispatch send_timeout send
  dispatch-frame message retry with_priority p r q e =
      let chan = pick c with_priority p in
      elim (Option-cases p.queue_timeout) [
        | inl no_limit ↦ elim (Option-cases (c.send message (at c chan.0 p.queues))) [
          | inl waits ↦ ground (arith, try_send-frame chan message p)
          | inr (sent, done) ↦ ground (arith, try_send-frame chan message p)
        ]
        | inr (period, limited) ↦
            elim (Option-cases (send_timeout_loop c 6 chan message period retry p)) [
              | inl ends ↦ absurd (ground arith)
              | inr (s, sent) ↦
                  ground (arith, send_timeout_loop-frame 6 chan message period retry p s sent)
            ]
      ]

  -- The message that ends workers changes the queues alone.
  pub send_terminate_sends :
      (ids : List ℕ) (p q : ThreadPool c)
      → send_terminate c ids p ≡ some q
      → (left : Queues c) × (q ≡ record p { queues = left })
  unfolding send_terminate
  send_terminate_sends ids p q e =
      elim (Option-cases (c.send (terminate ids) (at c p.chan.0 p.queues))) [
        | inl waits ↦ absurd (ground arith)
        | inr ((r, s), done) ↦ (put c p.chan.0 s p.queues, ground arith)
      ]

  pub wake_workers-core : (p : ThreadPool c) → core (wake_workers c p) ≡ core p
  wake_workers-core p = ap (λ (k : Frame). k.core) (wake_workers-frame p)

  pub dispatch-core :
      (message : Message) (retry : ℕ) (with_priority : Bool) (p : ThreadPool c)
      (r : Result Bool SendTimeoutError) (q : ThreadPool c)
      → dispatch c message retry with_priority p ≡ some (r, q)
      → core q ≡ core p
  dispatch-core message retry with_priority p r q e =
      ap (λ (k : Frame). k.core) (dispatch-frame message retry with_priority p r q e)

-- ===== src/Pool/Evicting.antt =====
-- src/pool.rs, `try_send` into a full queue under the policy that evicts.
use thread_pool.Pool.Delivering.{at-put_same}
use thread_pool.Prelude.{
  ℕ, ◌<◌, ◌≡◌, ap, ◌∙◌, sym, true, false, List, [], ◌∷◌, ◌++◌, ok, length, arith,
}
use thread_pool.Model.{Message}
use thread_pool.Channel.{Channel, IsFifo}
use thread_pool.Config.{lossy_retry}
use thread_pool.Worker.{Queue, pri, norm}
use thread_pool.Manager
use thread_pool.Manager.{Manager}
use thread_pool.Manager.Jobs.{Queues, at, put, drop_one}
use thread_pool.Pool.{ThreadPool, wake_workers}
use thread_pool.Pool.Dispatch.{Sent, with_state, with_drops, full_as_timeout, try_send}

-- The number by which `dispatch` names a queue.
abbrev pub number_of : Queue → ℕ
number_of pri = 0
number_of norm = 1

module _ (c : Channel) (fifo : IsFifo c) where
  open fifo use {contents, capacity}

  drop_one-at-first :
      (queue : Queue) (m : Manager) (q : Queues c) (x : Message) (xs : List Message)
      → m.chan ≡ (pri, norm)
      → contents (at c queue q) ≡ x ∷ xs
      → (drop_one c (number_of queue) m q).1 ≡ put c queue (c.try_recv (at c queue q)).1 q
  unfolding drop_one
  drop_one-at-first pri m q x xs e h =
      let s = q.pri_state in
      let some_left : c.is_empty s ≡ false =
        ground (
          arith,
          fifo.is_empty_len s,
          fifo.len_contents s,
          ap (λ (l : List Message). length l) h,
        ) in
      ground arith
  drop_one-at-first norm m q x xs e h =
      let s = q.norm_state in
      let some_left : c.is_empty s ≡ false =
        ground (
          arith,
          fifo.is_empty_len s,
          fifo.len_contents s,
          ap (λ (l : List Message). length l) h,
        ) in
      ground arith

  pub wake_workers_keeps :
      (p : ThreadPool c)
      → ((wake_workers c p).queues ≡ p.queues)
        × ((wake_workers c p).manager.chan ≡ p.manager.chan)
        × ((wake_workers c p).timeout_policy ≡ p.timeout_policy)
  unfolding wake_workers Manager.wake_up
  wake_workers_keeps p = ground arith

  -- What a receive and then a send leave of a full channel.
  swapped :
      (message x : Message) (xs : List Message) (s : c.State)
      → contents s ≡ x ∷ xs
      → length (contents s) ≡ capacity s
      → ((c.try_send message (c.try_recv s).1).0 ≡ ok tt)
        × (contents (c.try_send message (c.try_recv s).1).1 ≡ xs ++ message ∷ [])
  swapped message x xs s h full =
      let u = (c.try_recv s).1 in
      let left = (fifo.recv_some s x xs h).1 in
      let room : c.len u < capacity u = omega (
        arith,
        fifo.len_contents u,
        ap (λ (l : List Message). length l) left,
        ap (λ (l : List Message). length l) h,
        fifo.capacity_try_recv s,
      ) in
      let r = fifo.try_send_room message u room in
      (r.0, r.1 ∙ ap (λ (l : List Message). l ++ message ∷ []) left)

  -- Over channels that keep their documented order, under the policy that evicts, and with the
  -- manager's receivers in the order that `build` is given them, `try_send` into a full queue of a
  -- capacity other than 0 succeeds: it drops that queue's oldest message and appends the new one
  -- behind the others.
  pub try_send_evicts :
      (queue : Queue) (message x : Message) (xs : List Message) (p : ThreadPool c)
      → p.manager.chan ≡ (pri, norm)
      → p.timeout_policy ≡ lossy_retry
      → contents (at c queue p.queues) ≡ x ∷ xs
      → length (contents (at c queue p.queues)) ≡ capacity (at c queue p.queues)
      → ((try_send c (queue, number_of queue) message p).0 ≡ ok tt)
        × (contents (at c queue (try_send c (queue, number_of queue) message p).1.queues)
            ≡ xs ++ message ∷ [])
  unfolding try_send
  try_send_evicts queue message x xs p e policy h full =
      let s = at c queue p.queues in
      let t = (c.try_send message s).1 in
      let is_full : c.is_full s ≡ true = ground (arith, fifo.is_full_len s, fifo.len_contents s) in
      let (failed, same) = fifo.try_send_full message s is_full in
      let tried = with_state c queue t p in
      let woken = wake_workers c tried in
      let (queues, chan, kept) = wake_workers_keeps tried in
      let here : at c queue woken.queues ≡ t =
        ap (at c queue) queues ∙ at-put_same c fifo queue t p.queues in
      let dropped =
        drop_one-at-first queue woken.manager woken.queues x xs (chan ∙ e)
          (ap (λ (v : c.State). contents v) here ∙ same ∙ h) in
      let u = (c.try_recv t).1 in
      let again = swapped message x xs t (same ∙ h) (
        ap (λ (l : List Message). length l) same ∙ full ∙ sym (fifo.capacity_try_send message s)) in
      let state : at c queue (drop_one c (number_of queue) woken.manager woken.queues).1 ≡ u =
        ap (at c queue) dropped
        ∙ at-put_same c fifo queue (c.try_recv (at c queue woken.queues)).1 woken.queues
        ∙ ap (λ (v : c.State). (c.try_recv v).1) here in
      let evicted = with_drops c (drop_one c (number_of queue) woken.manager woken.queues) woken in
      let v = c.try_send message (at c queue evicted.queues) in
      let step : try_send c (queue, number_of queue) message p
          ≡ (full_as_timeout c v.0, with_state c queue v.1 evicted) =
        ground (arith, failed) in
      let last = ap (λ (w : c.State). c.try_send message w) state in
      (
        ap (λ (r : Sent c). r.0) step
            ∙ ap (λ r. full_as_timeout c r.0) last
            ∙ ap (full_as_timeout c) again.0,
        ap (λ (r : Sent c). contents (at c queue r.1.queues)) step
            ∙ ap (λ (w : c.State). contents w) (at-put_same c fifo queue v.1 evicted.queues)
            ∙ ap (λ r. contents r.1) last
            ∙ again.1,
      )

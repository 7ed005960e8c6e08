-- ===== src/Manager/Jobs/Drops.antt =====
-- src/manager.rs: how many messages `drop_one` and `drop_many` take, and from where.
use thread_pool.Prelude.{
  ℕ, zero, suc, ◌+◌, ◌≡◌, refl, ap, min, length, drop, arith, inl, inr, Bool-cases, drop-nil,
}
use thread_pool.Model.{Message}
use thread_pool.Channel.{Channel, IsFifo}
use thread_pool.Worker.{Queue, pri, norm}
use thread_pool.Worker.Serving.{List-cases}
use thread_pool.Worker.Rounds.{empty_contents}
use thread_pool.Manager.{Manager}
use thread_pool.Manager.Jobs.{Queues, chan_of, drop_one, drop_loop, drop_many}

module _ (c : Channel) (fifo : IsFifo c) where
  open fifo use {contents}

  drop_loop_takes :
      (left count : ℕ) (s : c.State)
      → ((drop_loop c left count s).0 ≡ count + min left (length (contents s)))
        × (contents (drop_loop c left count s).1 ≡ drop left (contents s))
  unfolding drop_loop
  drop_loop_takes zero count s = (omega arith, refl)
  drop_loop_takes (suc left) count s = elim (List-cases (contents s)) [
    | inl gone ↦ ground (arith, fifo.recv_none s gone)
    | inr (m, ms, e) ↦
        let (got, left_over) = fifo.recv_some s m ms e in
        let r = drop_loop_takes left (count + 1) (c.try_recv s).1 in
        ground (arith, got, left_over, r)
  ]

  -- The counts and channels after `target` messages are dropped from one of the two queues: as many
  -- as there are, the oldest first, and the other queue is left alone.
  abbrev pub Dropped : Queue → ℕ → Queues c → ℕ × Queues c → Type 0
  Dropped pri target q r =
      (r.0 ≡ min target (length (contents q.pri_state)))
      × (contents r.1.pri_state ≡ drop target (contents q.pri_state))
      × (r.1.norm_state ≡ q.norm_state)
  Dropped norm target q r =
      (r.0 ≡ min target (length (contents q.norm_state)))
      × (contents r.1.norm_state ≡ drop target (contents q.norm_state))
      × (r.1.pri_state ≡ q.pri_state)

  drop_many_at :
      (from target : ℕ) (m : Manager) (q : Queues c) (queue : Queue)
      → chan_of from m.chan ≡ queue
      → Dropped queue target q (drop_many c from target m q)
  unfolding drop_many
  drop_many_at from target m q pri e = elim (Bool-cases (c.is_empty q.pri_state)) [
    | inl gone ↦
        ground (arith, empty_contents c fifo q.pri_state gone, drop-nil {A = Message} target)
    | inr more ↦ ground (arith, drop_loop_takes target 0 q.pri_state)
  ]
  drop_many_at from target m q norm e = elim (Bool-cases (c.is_empty q.norm_state)) [
    | inl gone ↦
        ground (arith, empty_contents c fifo q.norm_state gone, drop-nil {A = Message} target)
    | inr more ↦ ground (arith, drop_loop_takes target 0 q.norm_state)
  ]

  drop_one_at :
      (from : ℕ) (m : Manager) (q : Queues c) (queue : Queue)
      → chan_of from m.chan ≡ queue
      → Dropped queue 1 q (drop_one c from m q)
  unfolding drop_one
  drop_one_at from m q pri e = elim (List-cases (contents q.pri_state)) [
    | inl gone ↦ ground (
      arith,
      fifo.recv_none q.pri_state gone,
      fifo.is_empty_len q.pri_state,
      fifo.len_contents q.pri_state,
      ap length gone,
    )
    | inr (w, ws, some_left) ↦ ground (
      arith,
      fifo.recv_some q.pri_state w ws some_left,
      fifo.is_empty_len q.pri_state,
      fifo.len_contents q.pri_state,
      ap length some_left,
    )
  ]
  drop_one_at from m q norm e = elim (List-cases (contents q.norm_state)) [
    | inl gone ↦ ground (
      arith,
      fifo.recv_none q.norm_state gone,
      fifo.is_empty_len q.norm_state,
      fifo.len_contents q.norm_state,
      ap length gone,
    )
    | inr (w, ws, some_left) ↦ ground (
      arith,
      fifo.recv_some q.norm_state w ws some_left,
      fifo.is_empty_len q.norm_state,
      fifo.len_contents q.norm_state,
      ap length some_left,
    )
  ]

  -- Over channels that keep their documented order, and with the manager's receivers in the order
  -- that `build` is given them: `drop_many` takes from the priority queue for 0 and from the
  -- normal queue for any other number, as many messages as asked for or else all, the oldest
  -- first; `drop_one` takes as `drop_many` of one.
  pub drop_many_drops :
      (target from : ℕ) (m : Manager) (q : Queues c)
      → m.chan ≡ (pri, norm)
      → Dropped pri target q (drop_many c 0 target m q)
        × Dropped norm target q (drop_many c (suc from) target m q)
        × Dropped pri 1 q (drop_one c 0 m q)
        × Dropped norm 1 q (drop_one c (suc from) m q)
  drop_many_drops target from m q e =
      let first : chan_of 0 m.chan ≡ pri = ground arith in
      let other : chan_of (suc from) m.chan ≡ norm = ground arith in
      (
        drop_many_at 0 target m q pri first,
        drop_many_at (suc from) target m q norm other,
        drop_one_at 0 m q pri first,
        drop_one_at (suc from) m q norm other,
      )

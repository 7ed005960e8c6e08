-- ===== src/Manager/Jobs.antt =====
-- src/manager.rs, `JobManagement`: dropping queued messages. `queues` are the two channels of the
-- pool, priority and normal; `from` is the number of one.
pub mod Drops
use thread_pool.Prelude.{ℕ, zero, suc, ◌+◌, Bool, true, false, Result, ok, err, if◌then◌else◌, ◌==◌}
use thread_pool.Channel.{Channel}
use thread_pool.Worker.{Queue, pri, norm}
use thread_pool.Manager.{Manager}

pub record Queues (c : Channel) : Type 0 where
  pub pri_state : c.State
  pub norm_state : c.State

abbrev pub chan_of : ℕ → Queue × Queue → Queue
chan_of from chan = if from == 0 then chan.0 else chan.1

abbrev pub one_if_ok : {A E : Type 0} → Result A E → ℕ
one_if_ok (ok a) = 1
one_if_ok (err e) = 0

module _ (c : Channel) where
  abbrev pub at : Queue → Queues c → c.State
  at pri q = q.pri_state
  at norm q = q.norm_state

  abbrev pub put : Queue → c.State → Queues c → Queues c
  put pri s q = record q { pri_state = s }
  put norm s q = record q { norm_state = s }

  unfoldable pub drop_one : ℕ → Manager → Queues c → ℕ × Queues c
  drop_one from m queues =
      let chan = chan_of from m.chan in
      if c.is_empty (at chan queues)
      then (0, queues)
      else let (r, t) = c.try_recv (at chan queues) in (one_if_ok r, put chan t queues)

  -- `while count < target`, with what is left of the target.
  unfoldable pub drop_loop : ℕ → ℕ → c.State → ℕ × c.State
  drop_loop zero count s = (count, s)
  drop_loop (suc left) count s =
      let (r, t) = c.try_recv s in
      elim r [ err e ↦ (count, t) | ok m ↦ drop_loop left (count + 1) t ]

  unfoldable pub drop_many : ℕ → ℕ → Manager → Queues c → ℕ × Queues c
  unfolding drop_loop
  drop_many from target m queues =
      let chan = chan_of from m.chan in
      if c.is_empty (at chan queues)
      then (0, queues)
      else let (count, t) = drop_loop target 0 (at chan queues) in (count, put chan t queues)

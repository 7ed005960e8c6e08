-- ===== src/Pool/Sizes.antt =====
-- src/pool.rs: how many workers `resize` and `auto_adjust` leave.
use mathlib.Core.List.{Perm, Permᴰ}
use mathlib.Core.Logic.{∥∥₁_elim}
use native.Mathlib.Nat.{ℕ_set}
use thread_pool.Prelude.{
  Result, ℕ, zero, suc, ◌+◌, ◌-◌, ◌≤◌, ◌<◌, ◌≡◌, refl, ap, ◌∙◌, Bool, true, ◌&&◌, List, ◌++◌, some,
  if◌then◌else◌, ltb, leb, length, length-append, arith, Bool-cases, inl, inr,
}
use thread_pool.Channel.{Channel}
use thread_pool.Config.{Config}
use thread_pool.Worker.{Worker, Queue}
use thread_pool.Manager.{Manager}
use thread_pool.Manager.Sizing
use thread_pool.Manager.Sizing.{workers_count, ids, shrink_workers}
use thread_pool.Manager.Cleanup.{live}
use thread_pool.Manager.Valid.{numbers}
use thread_pool.Manager.Growth.{Grown, Grown-IsValid, add_workers_grows, made}
use thread_pool.Manager.Shrink.{shrink_by_takes_last}
use thread_pool.Pool.{ThreadPool, amortized_new_size}
use thread_pool.Model.{Message, terminate}
use thread_pool.Worker.{Queue}
use thread_pool.Manager.Jobs.{Queues, at, put}
use thread_pool.Pool.Creation.{IsReady}
use thread_pool.Pool.Resizing.{
  extend, shrink, resize, send_terminate, auto_adjust, get_queue_length,
}

length-perm_d : {xs ys : List Worker} → Permᴰ xs ys → length xs ≡ length ys
length-perm_d Permᴰ.nil = refl
length-perm_d (Permᴰ.cons e p) = ap suc (length-perm_d p)
length-perm_d (Permᴰ.swap e f) = refl
length-perm_d (Permᴰ.trans p q) = length-perm_d p ∙ length-perm_d q

length-perm : (xs ys : List Worker) → Perm xs ys → length xs ≡ length ys
length-perm xs ys p = ∥∥₁_elim p (ℕ_set (length xs) (length ys)) length-perm_d

length-made :
    (config : Config) (chan : Queue × Queue) (privileged : Bool) (k a : ℕ)
    → length (made config chan privileged (numbers k a)) ≡ k
length-made config chan privileged zero a = refl
length-made config chan privileged (suc k) a = ap suc (length-made config chan privileged k (a + 1))

length-grown :
    (k : ℕ) (privileged : Bool) (m n : Manager)
    → Grown k privileged m n
    → length n.workers ≡ length (live m.workers) + k
length-grown k privileged m n g =
    let fresh = made m.config m.chan privileged (numbers k (m.last_worker_id + 1)) in
    omega (
      arith,
      ap (λ (l : List Worker). length l) g.all_workers,
      length-append g.kept fresh,
      length-perm g.kept (live m.workers) g.kept_live,
      length-made m.config m.chan privileged k (m.last_worker_id + 1),
    )

module _ (c : Channel) where
  extends :
      (more : ℕ) (p : ThreadPool c)
      → IsReady c p
      → 0 < more
      → p.manager.last_worker_id + more < 18446744073709551616
      → (q : ThreadPool c) × (extend c more p ≡ some q)
        × (workers_count q.manager ≡ length (live p.manager.workers) + more)
        × IsReady c q
  unfolding extend Sizing.extend_by
  extends more p r some_more fits =
      let g = add_workers_grows more true p.manager r.manager_valid some_more fits in
      (
        record p { manager = g.0 },
        ground (arith, g.1),
        length-grown more true p.manager g.0 g.2,
        record {
          manager_valid = Grown-IsValid more true p.manager g.0 r.manager_valid fits g.2;
          senders = r.senders;
          receivers = g.2.chan_kept ∙ r.receivers;
          size_pos = r.size_pos;
          size_capped = r.size_capped;
        },
      )

  -- The blocking send to a queue ends, whatever the message.
  abbrev pub SendEnds : Queue → ThreadPool c → Type 0
  SendEnds queue p =
      (m : Message)
      → (r : Result (Unit {0}) Message × c.State) × (c.send m (at c queue p.queues) ≡ some r)

  pub send_terminate_ends :
      (ids : List ℕ) (p : ThreadPool c)
      → SendEnds p.chan.0 p
      → (left : Queues c) × (send_terminate c ids p ≡ some (record p { queues = left }))
  unfolding send_terminate
  send_terminate_ends ids p ends =
      let (r, done) = ends (terminate ids) in (put c p.chan.0 r.1 p.queues, ground (arith, done))

  pub shrinks :
      (less : ℕ) (p : ThreadPool c)
      → IsReady c p
      → 0 < less
      → less ≤ workers_count p.manager
      → SendEnds p.chan.0 p
      → (q : ThreadPool c) × (shrink c less p ≡ some q)
        × (workers_count q.manager + less ≡ workers_count p.manager)
        × IsReady c q
  unfolding shrink
  shrinks less p r some_less fits ends =
      let (kept, gone, split, size, runs, valid) =
        shrink_by_takes_last less p.manager r.manager_valid some_less fits in
      let m = record p.manager { workers = kept; log = p.manager.log ++ shrink_workers gone } in
      let (left, sent) = send_terminate_ends (ids gone) (record p { manager = m }) ends in
      (
        record p { manager = m; queues = left },
        ground (arith, runs, sent),
        omega (arith, ap (λ (l : List Worker). length l) split, length-append kept gone, size),
        record {
          manager_valid = valid;
          senders = r.senders;
          receivers = r.receivers;
          size_pos = r.size_pos;
          size_capped = r.size_capped;
        },
      )

  -- On a ready pool and for a target other than 0, whose new ids would fit a `usize`, `resize`
  -- returns and the pool is ready again, provided that its blocking send of the message that ends
  -- workers does not wait for ever, should the target be below the number of workers. If the target
  -- is not above the number of workers, it is their number afterwards. If it is above, the workers
  -- that were marked for retirement are cleaned away while the others are added, so that the pool
  -- ends up smaller than the target by the number of those.
  pub resize_sizes :
      (target : ℕ) (p : ThreadPool c)
      → IsReady c p
      → 0 < target
      → p.manager.last_worker_id + target < 18446744073709551616
      → (target < workers_count p.manager → SendEnds p.chan.0 p)
      → (q : ThreadPool c) × (resize c target p ≡ some q)
        × (workers_count q.manager ≡ (
            if ltb (workers_count p.manager) target
            then length (live p.manager.workers) + (target - workers_count p.manager)
            else target))
        × IsReady c q
  unfolding resize
  resize_sizes target p r some_target fits ends =
      let worker_count = workers_count p.manager in
      elim (Bool-cases (ltb worker_count target)) [
        | inl grow ↦
            let (q, runs, size, ready) =
              extends (target - worker_count) p r (ground arith) (omega arith) in
            (q, ground arith, ground arith, ready)
        | inr keep ↦ elim (Bool-cases (ltb target worker_count)) [
          | inl less ↦
              let (q, runs, size, ready) =
                shrinks (worker_count - target) p r (ground arith) (omega arith)
                  (ends (ground arith)) in
              (q, ground arith, ground arith, ready)
          | inr same ↦ (p, ground arith, ground arith, r)
        ]
      ]

  -- The automatic adjustment never makes a pool smaller: it adds one worker for each queued
  -- message if more than two are queued and the number of workers does not exceed the threshold,
  -- and else it does nothing.
  pub auto_adjust_only_extends :
      (p : ThreadPool c)
      → let queued = get_queue_length c p in
        auto_adjust c p ≡ (
          if ltb 2 queued && leb (workers_count p.manager) p.auto_extend_threshold
          then extend c queued p
          else some p)
  unfolding auto_adjust amortized_new_size resize extend
  auto_adjust_only_extends p = ground arith

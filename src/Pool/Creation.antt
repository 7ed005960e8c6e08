-- ===== src/Pool/Creation.antt =====
-- src/pool.rs, `create_pool`: the pool that is made, and its workers.
use thread_pool.Prelude.{
  ℕ, ◌≤◌, ◌≡◌, refl, ap, sym, subst, All, ◌∙◌, Bool, true, false, List, [], ◌∷◌, ◌++◌, some, ltb,
  if◌then◌else◌, arith,
}
use mathlib.Core.List.Perm
use thread_pool.Channel.{Channel}
use thread_pool.Config.{Config}
use thread_pool.Model.{flag_normal, flag_lazy_init}
use thread_pool.Worker.{Worker, Thread, Queue, pri, norm}
use thread_pool.Manager
use thread_pool.Manager.{Manager, init_id}
use thread_pool.Manager.Valid.{IsValid, numbers}
use thread_pool.Manager.Growth.{Grown-IsValid, add_workers_grows, made}
use thread_pool.Pool.{new_with_config, ThreadPool, pool_size, pool_of, create_pool, threshold}

-- A manager of a configuration before any worker is added.
abbrev fresh : Config → Manager
fresh config = record {
  config = config;
  workers = [];
  mutating = 0;
  last_worker_id = 15;
  idle_threshold = record { hibernate = 128; retire = 512 };
  chan = (pri, norm);
  log = [];
}

fresh-IsValid : (config : Config) → IsValid (fresh config)
fresh-IsValid config = record {
  free = refl;
  distinct = λ i. omega arith;
  ranged = λ i h. omega arith;
  floor = omega arith;
  fits = omega arith;
}

pool_size_range : (size : ℕ) → (1 ≤ pool_size size) × (pool_size size ≤ threshold)
unfolding pool_size
pool_size_range size = ground arith

size_lem :
    (size : ℕ) → pool_size size ≡ (if ltb size 1 then 1 else if ltb 1024 size then 1024 else size)
unfolding pool_size
size_lem size = refl

-- What holds of a pool between two calls: its manager is valid, the two ends of both channels
-- agree, and its size is in range.
pub record IsReady (c : Channel) (p : ThreadPool c) : Type 0 where
  pub manager_valid : IsValid p.manager
  pub senders : p.chan ≡ (pri, norm)
  pub receivers : p.manager.chan ≡ (pri, norm)
  pub size_pos : 1 ≤ p.init_size
  pub size_capped : p.init_size ≤ threshold

-- The receivers that a worker's thread was given, first and second.
abbrev pub Receives : Queue × Queue → Worker → Type 0
Receives pair w = (t : Thread) × (w.thread ≡ some t) × (t.rx_pair ≡ pair)

made-Receives :
    (config : Config) (chan : Queue × Queue) (privileged : Bool) (is : List ℕ)
    → All (Receives (chan.1, chan.0)) (made config chan privileged is)
made-Receives config chan privileged [] = tt
made-Receives config chan privileged (i ∷ is) =
    ((_, refl, refl), made-Receives config chan privileged is)

-- Creation returns, whatever size is asked for. The size is cut to the range of 1 to 1024; an eager
-- pool has that many workers, of the ids from 16 on, all privileged, and a lazy one has none; the
-- status says which. The pool is ready and keeps the configuration. But each worker is handed the
-- two receivers in the order normal, priority, so it serves the normal queue as its first one.
pub create_pool_makes :
    (c : Channel) (size : ℕ) (config : Config) (lazy_built : Bool)
    → (p : ThreadPool c) × (create_pool c size config lazy_built ≡ some p)
      × IsReady c p
      × (p.init_size ≡ (if ltb size 1 then 1 else if ltb 1024 size then 1024 else size))
      × (p.status ≡ (if lazy_built then flag_lazy_init else flag_normal))
      × (p.manager.workers
          ≡ (if lazy_built then [] else made config (pri, norm) true (numbers p.init_size 16)))
      × All (Receives (norm, pri)) p.manager.workers
      × (p.manager.config ≡ config)
unfolding create_pool Manager.build
create_pool_makes c size config true = (
  pool_of c (pool_size size) config true (fresh config),
  refl,
  record {
    manager_valid = fresh-IsValid config;
    senders = refl;
    receivers = refl;
    size_pos = (pool_size_range size).0;
    size_capped = (pool_size_range size).1;
  },
  size_lem size,
  refl,
  refl,
  tt,
  refl,
)
create_pool_makes c size config false =
    let range = pool_size_range size in
    let g =
      add_workers_grows (pool_size size) true (fresh config) (fresh-IsValid config) range.0
        (omega (arith, range)) in
    let none_kept : g.2.kept ≡ [] = Perm.eq-nil g.2.kept_live in
    let workers =
      g.2.all_workers
      ∙ ap (λ (l : List Worker). l ++ made config (pri, norm) true (numbers (pool_size size) 16))
          none_kept in
    (
      pool_of c (pool_size size) config false g.0,
      ground (arith, g.1),
      record {
        manager_valid =
            Grown-IsValid (pool_size size) true (fresh config) g.0 (fresh-IsValid config)
              (omega (arith, range)) g.2;
        senders = refl;
        receivers = g.2.chan_kept;
        size_pos = range.0;
        size_capped = range.1;
      },
      size_lem size,
      refl,
      workers,
      subst (All (Receives (norm, pri))) (sym workers)
          (made-Receives config (pri, norm) true (numbers (pool_size size) 16)),
      g.2.config_kept,
    )

-- A pool as `new_with_config` makes it for a size: that size cut to the range of 1 to 1024, with
-- that many workers, of the ids from 16 on, and the status of a pool at work.
pub record IsMade (c : Channel) (size : ℕ) (config : Config) (p : ThreadPool c) : Type 0 where
  pub cut : p.init_size ≡ (if ltb size 1 then 1 else if ltb 1024 size then 1024 else size)
  pub started : p.manager.workers ≡ made config (pri, norm) true (numbers p.init_size 16)
  pub at_work : p.status ≡ flag_normal

pub new_with_config_makes :
    (c : Channel) (size : ℕ) (config : Config)
    → (p : ThreadPool c) × (new_with_config c size config ≡ some p)
      × IsReady c p
      × IsMade c size config p
unfolding new_with_config
new_with_config_makes c size config =
    let r = create_pool_makes c size config false in
    (r.0, r.1, r.2, record { cut = r.3; started = r.5; at_work = r.4 })

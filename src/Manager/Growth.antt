-- ===== src/Manager/Growth.antt =====
-- src/manager.rs, `add_workers` and `build`: the workers that are made, their ids, and the manager
-- that they leave.
use mathlib.Core.List.{Perm, append_assoc, append-nil}
use mathlib.Core.List.Perm
use thread_pool.Prelude.{
  ℕ, zero, suc, ◌+◌, ◌≤◌, ◌<◌, ◌≡◌, refl, sym, ap, ap₂, subst, ◌∙◌, Bool, List, [], ◌∷◌, ◌++◌, map,
  some, ltb, arith, Bool-cases, inl, inr, count,
}
use thread_pool.Model.{Event, spawned}
use thread_pool.Behaviors.{call_hook}
use thread_pool.Config.{Config}
use thread_pool.Worker
use thread_pool.Worker.{Worker, Queue, pri, norm}
use thread_pool.Manager.{
  Manager, usize, init_id, worker_name, push_worker, push_workers, add_workers, cleanup_if_used,
  reset_lock,
}
use thread_pool.Manager.Sizing.{ids}
use thread_pool.Manager.Lock.{concede_free_up}
use thread_pool.Worker.Serving.{List-cases}
use thread_pool.Manager.Cleanup.{live, marked, departures, Kept, worker_cleanup_keeps}
use thread_pool.Manager.Valid.{
  IsValid, numbers, count-numbers, count-ids-perm, count-ids-live, count-ids-append,
}

-- The worker that is made for an id. Its receivers are the manager's pair, the other way round.
abbrev pub made_worker : Config → Queue × Queue → Bool → ℕ → Worker
made_worker config chan privileged id = record {
  id = id;
  thread = some (record {
    name = worker_name config.pool_name id;
    my_id = id;
    stack_size = config.thread_size;
    privileged = privileged;
    rx_pair = (chan.1, chan.0);
  });
  stat = some 0;
  before_drop = config.worker_behaviors.before_drop;
  after_drop = config.worker_behaviors.after_drop;
}

abbrev pub made : Config → Queue × Queue → Bool → List ℕ → List Worker
made config chan privileged = map (made_worker config chan privileged)

-- What is asked of the hooks and for the threads when workers are made.
abbrev pub launch : Config → ℕ → List Event
unfolding call_hook
launch config id =
    call_hook config.worker_behaviors.before_start id
    ++ spawned id ∷ call_hook config.worker_behaviors.after_start id

abbrev pub launches : Config → List ℕ → List Event
launches config [] = []
launches config (i ∷ is) = launch config i ++ launches config is

ids-made :
    (config : Config) (chan : Queue × Queue) (privileged : Bool) (is : List ℕ)
    → ids (made config chan privileged is) ≡ is
ids-made config chan privileged [] = refl
ids-made config chan privileged (i ∷ is) = ap (◌∷◌ i) (ids-made config chan privileged is)

-- The loop appends the workers of the next ids and touches nothing else but the log.
pushed :
    (n offset : ℕ) (privileged : Bool) (m : Manager)
    → m.last_worker_id + offset + n ≤ 18446744073709551616
    → let p = push_workers n offset privileged m in
      (p.workers
        ≡ m.workers ++ made m.config m.chan privileged (numbers n (m.last_worker_id + offset)))
      × Kept m p
      × (p.log ≡ m.log ++ launches m.config (numbers n (m.last_worker_id + offset)))
unfolding push_workers Worker.new
pushed zero offset privileged m h = (
  sym (append-nil m.workers),
  record {
    same_config = refl;
    same_lock = refl;
    same_last = refl;
    same_idle = refl;
    same_chan = refl;
  },
  sym (append-nil m.log),
)
pushed (suc n) offset privileged m h =
    let r = pushed n (offset + 1) privileged (push_worker offset privileged m) (omega arith) in
    let build = made_worker m.config m.chan privileged in
    let whole : usize (m.last_worker_id + offset) ≡ m.last_worker_id + offset = omega arith in
    let start : m.last_worker_id + (offset + 1) ≡ m.last_worker_id + offset + 1 = omega arith in
    (
      r.0
          ∙ append_assoc m.workers (build (usize (m.last_worker_id + offset)) ∷ []) _
          ∙ ap₂ (λ (id : ℕ) (next : ℕ). m.workers ++ build id ∷ map build (numbers n next)) whole
              start,
      record {
        same_config = r.1.same_config;
        same_lock = r.1.same_lock;
        same_last = r.1.same_last;
        same_idle = r.1.same_idle;
        same_chan = r.1.same_chan;
      },
      r.2
          ∙ append_assoc m.log (launch m.config (usize (m.last_worker_id + offset))) _
          ∙ ap₂
              (λ (id : ℕ) (next : ℕ).
                m.log ++ (launch m.config id ++ launches m.config (numbers n next)))
              whole start,
    )

none_yet : (m : Manager) → IsValid m → m.last_worker_id ≤ init_id → m.workers ≡ []
none_yet m v h = elim (List-cases m.workers) [
  | inl gone ↦ gone
  | inr (w, ws, e) ↦
      absurd (ground (arith, v.ranged w.id, ap (λ (l : List Worker). count w.id (ids l)) e))
]

-- Before any worker was added there is none; after that the cleanup runs.
cleaned :
    (m : Manager)
    → IsValid m
    → (n : Manager) × (cleanup_if_used m ≡ some n)
      × Perm n.workers (live m.workers)
      × Kept m n
      × (gone : List Worker) × Perm gone (marked m.workers)
      × (n.log ≡ m.log ++ departures gone)
unfolding cleanup_if_used
cleaned m v = elim (Bool-cases (ltb init_id m.last_worker_id)) [
  | inl used ↦ let r = worker_cleanup_keeps m in (r.0, ground (arith, r.1), r.2, r.3, r.4, r.5, r.6)
  | inr new ↦
      let gone = none_yet m v (ground arith) in
      (
        m,
        ground arith,
        subst (λ l. Perm l (live l)) (sym gone) (Perm.refl []),
        record {
          same_config = refl;
          same_lock = refl;
          same_last = refl;
          same_idle = refl;
          same_chan = refl;
        },
        [],
        subst (λ l. Perm [] (marked l)) (sym gone) (Perm.refl []),
        sym (append-nil m.log),
      )
]

-- What `add_workers` leaves of a manager: the workers not marked for retirement, and behind them
-- the new ones, of the ids after the last one given out; and what it asks of the threads and the
-- hooks, for the workers that leave and then for the new ones.
pub record Grown (count : ℕ) (privileged : Bool) (m n : Manager) : Type 0 where
  pub kept : List Worker
  pub kept_live : Perm kept (live m.workers)
  pub all_workers :
      n.workers ≡ kept ++ made m.config m.chan privileged (numbers count (m.last_worker_id + 1))
  pub last_moved : n.last_worker_id ≡ m.last_worker_id + count
  pub lock_free : n.mutating ≡ 0
  pub config_kept : n.config ≡ m.config
  pub chan_kept : n.chan ≡ m.chan
  pub idle_kept : n.idle_threshold ≡ m.idle_threshold
  pub retired : List Worker
  pub retired_marked : Perm retired (marked m.workers)
  pub logged :
      n.log
      ≡ (m.log ++ departures retired) ++ launches m.config (numbers count (m.last_worker_id + 1))

-- On a valid manager and for ids that fit a `usize`, `add_workers` returns. It retires and drops
-- the workers marked for retirement, each once: the log has their joins and drop hooks. It keeps the
-- others, and appends `count` new ones with the ids after the last one given out, whose threads and
-- start hooks follow in the log.
pub add_workers_grows :
    (count : ℕ) (privileged : Bool) (m : Manager)
    → IsValid m
    → 0 < count
    → m.last_worker_id + count < 18446744073709551616
    → (n : Manager) × (add_workers count privileged m ≡ some n) × Grown count privileged m n
unfolding add_workers reset_lock
add_workers_grows count privileged m v h fits =
    let c = cleaned m v in
    let locked = record c.0 { mutating = 1 } in
    let p = pushed count 1 privileged locked (omega (arith, c.3.same_last)) in
    let grown = push_workers count 1 privileged locked in
    let n = record grown { mutating = 0; last_worker_id = usize (grown.last_worker_id + count) } in
    (
      n,
      ground (arith, c.1, concede_free_up c.0 (c.3.same_lock ∙ v.free)),
      record {
        kept = c.0.workers;
        kept_live = c.2;
        all_workers = ground (arith, p.0, c.3);
        last_moved = omega (arith, p.1.same_last, c.3.same_last);
        lock_free = refl;
        config_kept = p.1.same_config ∙ c.3.same_config;
        chan_kept = p.1.same_chan ∙ c.3.same_chan;
        idle_kept = p.1.same_idle ∙ c.3.same_idle;
        retired = c.4;
        retired_marked = c.5;
        logged =
            p.2
            ∙ ap (◌++◌ c.0.log) (
                ap₂ (λ (k : Config) (last : ℕ). launches k (numbers count (last + 1)))
                  c.3.same_config c.3.same_last)
            ∙ ap (λ (l : List Event). l ++ launches m.config (numbers count (m.last_worker_id + 1)))
                c.6;
      },
    )

tally :
    (i k : ℕ) (privileged : Bool) (m n : Manager)
    → Grown k privileged m n
    → count i (ids n.workers) ≤ count i (ids m.workers) + count i (numbers k (m.last_worker_id + 1))
tally i k privileged m n g =
    let new = numbers k (m.last_worker_id + 1) in
    let fresh = made m.config m.chan privileged new in
    omega (
      arith,
      ap (λ (l : List Worker). count i (ids l)) g.all_workers,
      count-ids-append i g.kept fresh,
      count-ids-perm i g.kept (live m.workers) g.kept_live,
      count-ids-live i m.workers,
      ap (λ (l : List ℕ). count i l) (ids-made m.config m.chan privileged new),
    )

-- A manager that has grown is valid again.
pub Grown-IsValid :
    (k : ℕ) (privileged : Bool) (m n : Manager)
    → IsValid m
    → m.last_worker_id + k < 18446744073709551616
    → Grown k privileged m n
    → IsValid n
Grown-IsValid k privileged m n v fits g = record {
  free = g.lock_free;
  distinct = λ i. ground (
    arith,
    tally i k privileged m n g,
    count-numbers i k (m.last_worker_id + 1),
    v.distinct i,
    v.ranged i,
  );
  ranged = λ i h. ground (
    arith,
    tally i k privileged m n g,
    count-numbers i k (m.last_worker_id + 1),
    v.ranged i,
    v.floor,
    g.last_moved,
  );
  floor = omega (arith, v.floor, g.last_moved);
  fits = omega (arith, g.last_moved);
}

-- To add workers to a valid manager, none or any number whose ids fit a `usize`, leaves a valid
-- manager.
pub add_workers-IsValid :
    (count : ℕ) (privileged : Bool) (m n : Manager)
    → IsValid m
    → m.last_worker_id + count < 18446744073709551616
    → add_workers count privileged m ≡ some n
    → IsValid n
unfolding add_workers
add_workers-IsValid zero privileged m n v fits e =
    let same : m ≡ n = ground (arith, e) in subst IsValid same v
add_workers-IsValid (suc k) privileged m n v fits e =
    let r = add_workers_grows (suc k) privileged m v (omega arith) fits in
    let same : r.0 ≡ n = ground (arith, e, r.1) in
    subst IsValid same (Grown-IsValid (suc k) privileged m r.0 v fits r.2)

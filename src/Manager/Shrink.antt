-- ===== src/Manager/Shrink.antt =====
-- src/manager.rs: `shrink_by`, `dismiss_worker` and `remove_all`, the operations that take workers
-- away.
use mathlib.Core.List.{Perm, append_assoc, perm_middle}
use mathlib.Core.List.Perm
use thread_pool.Prelude.{
  ℕ, suc, ◌+◌, ◌-◌, ◌≤◌, ◌<◌, ◌≡◌, refl, sym, ap, ap₂, subst, ◌∙◌, ◌≢◌, ◌⊎◌, inl, inr, true, List,
  [], ◌∷◌, ◌++◌, Option, none, some, ◌==◌, length, take, drop, arith, Bool-cases, Option-cases, All,
  count, take-append-drop, length-drop, length-append,
}
use thread_pool.Prelude.Vec.{close_gap, swap_remove_at, get_elem?_at, close_gap-perm}
use thread_pool.Model.{Event}
use thread_pool.Behaviors.{StatusBehaviors, call_hook}
use thread_pool.Worker
use thread_pool.Worker.{Worker}
use thread_pool.Worker.Serving.{List-cases}
use thread_pool.Manager.{
  Manager, logs, init_id, reset_lock, drain_worker, drain_workers, remove_all,
}
use thread_pool.Manager.Sizing.{
  ids, shrink_workers, shrink_by, dismiss_at, dismiss_loop, dismiss_worker,
}
use thread_pool.Manager.Lock.{concede_free_down, spin_free}
use thread_pool.Manager.Valid.{IsValid, count-ids-perm, count-ids-append}

-- With fewer workers a valid manager stays valid.
pub fewer-IsValid :
    (m n : Manager)
    → IsValid m
    → n.mutating ≡ 0
    → n.last_worker_id ≡ m.last_worker_id
    → ((i : ℕ) → count i (ids n.workers) ≤ count i (ids m.workers))
    → IsValid n
fewer-IsValid m n v lock last le = record {
  free = lock;
  distinct = λ i. omega (arith, le i, v.distinct i);
  ranged = λ i h. ground (arith, le i, v.ranged i);
  floor = omega arith;
  fits = omega arith;
}

-- On a valid manager, shrinking by at most the number of its workers returns the ids of the last
-- ones; it wakes, retires and drops those, keeps the others in their order, and leaves a valid
-- manager that is otherwise unchanged.
pub shrink_by_takes_last :
    (less : ℕ) (m : Manager)
    → IsValid m
    → 0 < less
    → less ≤ length m.workers
    → (kept : List Worker) × (gone : List Worker) × (m.workers ≡ kept ++ gone)
      × (length gone ≡ less)
      × (shrink_by less m
          ≡ some (ids gone, record m { workers = kept; log = m.log ++ shrink_workers gone }))
      × IsValid (record m { workers = kept; log = m.log ++ shrink_workers gone })
unfolding shrink_by reset_lock
shrink_by_takes_last less m v some_less h =
    let start = length m.workers - less in
    let split = take-append-drop start m.workers in
    (
      take start m.workers,
      drop start m.workers,
      sym split,
      omega (arith, length-drop start m.workers),
      ground (arith, concede_free_down m v.free),
      fewer-IsValid m _ v v.free refl (λ i. omega (
        arith,
        ap (λ (l : List Worker). count i (ids l)) split,
        count-ids-append i (take start m.workers) (drop start m.workers),
      )),
    )

-- To shrink by more workers than there are is a panic, whatever the manager's state.
pub shrink_by_panics : (less : ℕ) (m : Manager) → length m.workers < less → shrink_by less m ≡ none
unfolding shrink_by
shrink_by_panics less m h = ground arith

-- The manager after the worker `w` was found, with the workers that are left.
abbrev pub dismissed : Worker → List Worker → Manager → Manager
dismissed w left m =
    let (joined, events) = Worker.retire w in
    logs (record (logs m (Worker.wake_up w)) { workers = left; mutating = 0 })
      (events ++ Worker.drop joined)

dismiss_at_lem :
    (before rest : List Worker) (w : Worker) (m : Manager)
    → m.mutating ≡ 0
    → m.workers ≡ before ++ w ∷ rest
    → dismiss_at (length before) w m
      ≡ some (some w.id, dismissed w (before ++ close_gap (w ∷ rest)) m)
unfolding dismiss_at reset_lock
dismiss_at_lem before rest w m free e =
    ground (arith, spin_free (logs m (Worker.wake_up w)) free, swap_remove_at before w rest)

-- How a search for an id ends: with nothing, and no worker of the list has the id; or with the
-- first such worker, which alone has left the vector.
abbrev pub Dismisses : List Worker → ℕ → Manager → Option (Option ℕ × Manager) → Type 0
Dismisses searched id m r =
    ((count id (ids searched) ≡ 0) × (r ≡ some (none, m)))
    ⊎ ((w : Worker) × (left : List Worker) × (w.id ≡ id)
        × (r ≡ some (some id, dismissed w left m))
        × Perm m.workers (w ∷ left))

dismiss_loop_finds :
    (rest before : List Worker) (idx id : ℕ) (m : Manager)
    → m.mutating ≡ 0
    → m.workers ≡ before ++ rest
    → idx ≡ length before
    → Dismisses rest id m (dismiss_loop (length rest) idx id m)
unfolding dismiss_loop
dismiss_loop_finds [] before idx id m free e p = inl (refl, refl)
dismiss_loop_finds (w ∷ rest) before idx id m free e p = elim (Bool-cases (w.id == id)) [
  | inl hit ↦
      let left = close_gap (w ∷ rest) in
      inr (
        w,
        before ++ left,
        ground arith,
        ground (arith, get_elem?_at before w rest, dismiss_at_lem before rest w m free e),
        subst (λ l. Perm l (w ∷ before ++ left)) (sym e)
            (Perm.trans (perm_middle before rest)
              (Perm.cons w (Perm.append_left before (Perm.symm (close_gap-perm w rest))))),
      )
  | inr miss ↦
      let e' : m.workers ≡ (before ++ w ∷ []) ++ rest =
        e ∙ sym (append_assoc before (w ∷ []) rest) in
      let l = length-append before (w ∷ []) in
      let r =
        dismiss_loop_finds rest (before ++ w ∷ []) (idx + 1) id m free e' (omega (arith, l)) in
      let step : dismiss_loop (suc (length rest)) idx id m
          ≡ dismiss_loop (length rest) (idx + 1) id m =
        ground (arith, get_elem?_at before w rest) in
      elim r [
        | inl (none_there, same) ↦ inl (ground arith, step ∙ same)
        | inr (v, left, hit, same, perm) ↦ inr (v, left, hit, step ∙ same, perm)
      ]
]

-- On a valid manager, dismissing an id ends. If no worker has it, nothing changes. If one has, its
-- id is returned, and that worker alone is woken, taken out, retired and dropped; the lock is free
-- again.
pub dismiss_worker_removes :
    (id : ℕ) (m : Manager) → IsValid m → Dismisses m.workers id m (dismiss_worker id m)
unfolding dismiss_worker
dismiss_worker_removes id m v = dismiss_loop_finds m.workers [] 0 id m v.free refl refl

-- A dismissal keeps a valid manager valid.
pub dismiss_worker-IsValid :
    (id : ℕ) (m n : Manager) (r : Option ℕ)
    → IsValid m
    → dismiss_worker id m ≡ some (r, n)
    → IsValid n
dismiss_worker-IsValid id m n r v e = elim (dismiss_worker_removes id m v) [
  | inl (gone, same) ↦ let q : m ≡ n = ground arith in subst IsValid q v
  | inr (w, left, hit, same, perm) ↦
      let q : dismissed w left m ≡ n = ground arith in
      subst IsValid q (
        fewer-IsValid m (dismissed w left m) v refl refl
          (λ i. omega (arith, count-ids-perm i m.workers (w ∷ left) perm)))
]

-- The events of a worker that `remove_all` drains in sync mode, if it carries the hooks of the
-- pool's configuration: both hooks are called around the join, and then once more when the
-- worker is dropped.
abbrev pub drained_twice : StatusBehaviors → Worker → List Event
drained_twice behaviors w =
    let before = call_hook behaviors.before_drop w.id in
    let after = call_hook behaviors.after_drop w.id in
    before ++ (Worker.retire w).1 ++ after ++ before ++ after

abbrev pub all_drained_twice : StatusBehaviors → List Worker → List Event
all_drained_twice behaviors [] = []
all_drained_twice behaviors (w ∷ ws) = drained_twice behaviors w ++ all_drained_twice behaviors ws

abbrev pub CarriesHooks : StatusBehaviors → Worker → Type 0
CarriesHooks behaviors w =
    (w.before_drop ≡ behaviors.before_drop) × (w.after_drop ≡ behaviors.after_drop)

drain_worker_twice :
    (behaviors : StatusBehaviors) (w : Worker)
    → CarriesHooks behaviors w
    → drain_worker true behaviors w ≡ drained_twice behaviors w
unfolding drain_worker Worker.drop Worker.retire
drain_worker_twice behaviors w h = elim (Option-cases w.thread) [
  | inl none_there ↦ ground arith
  | inr (handle, e) ↦ ground arith
]

drain_workers_twice :
    (behaviors : StatusBehaviors) (ws : List Worker)
    → All (CarriesHooks behaviors) ws
    → drain_workers true behaviors ws ≡ all_drained_twice behaviors ws
unfolding drain_workers
drain_workers_twice behaviors [] h = refl
drain_workers_twice behaviors (w ∷ ws) h =
    ap₂ (λ (a : List Event) (b : List Event). a ++ b) (drain_worker_twice behaviors w h.0)
      (drain_workers_twice behaviors ws h.1)

-- On a valid manager that has workers, all with the configured hooks, `remove_all` in sync mode
-- ends. It leaves no worker, a free lock and the ids to start over, and a valid manager; each
-- worker is joined, in order, between one call of each hook, and then both hooks are called a
-- second time.
pub remove_all_empties :
    (m : Manager)
    → IsValid m
    → All (CarriesHooks m.config.worker_behaviors) m.workers
    → m.workers ≢ []
    → let n = record m {
      workers = [];
      last_worker_id = init_id;
      log = m.log ++ all_drained_twice m.config.worker_behaviors m.workers;
    } in
      (remove_all true m ≡ some n) × IsValid n
unfolding remove_all reset_lock
remove_all_empties m v hooks more = elim (List-cases m.workers) [
  | inl gone ↦ absurd (more gone)
  | inr (w, ws, e) ↦ (
    ground
        (arith, spin_free m v.free, drain_workers_twice m.config.worker_behaviors m.workers hooks),
    record {
      free = v.free;
      distinct = λ i. omega arith;
      ranged = λ i h. omega arith;
      floor = omega arith;
      fits = omega arith;
    },
  )
]

-- ===== src/Manager/Runs.antt =====
-- src/manager.rs: any sequence of the operations that change the workers.
use thread_pool.Prelude.{
  ℕ, zero, suc, ◌+◌, ◌≤◌, ◌<◌, ◌≡◌, ap, sym, subst, ◌∙◌, Bool, List, [], ◌∷◌, ◌++◌, Option, none,
  some, length, ltb, arith, Bool-cases, Option-cases, inl, inr, count,
}
use thread_pool.Worker.{Worker}
use thread_pool.Worker.Serving.{List-cases}
use thread_pool.Manager.{Manager, add_workers, worker_cleanup, remove_all, reset_lock}
use thread_pool.Manager.Sizing.{ids, shrink_by, shrink_workers, dismiss_worker}
use thread_pool.Manager.Lock.{spin_free}
use thread_pool.Manager.Cleanup.{live, worker_cleanup_keeps}
use thread_pool.Manager.Valid.{IsValid, count-ids-perm, count-ids-live}
use thread_pool.Manager.Growth.{add_workers_grows, add_workers-IsValid}
use thread_pool.Manager.Shrink.{
  fewer-IsValid, dismissed, shrink_by_takes_last, shrink_by_panics, dismiss_worker_removes,
  dismiss_worker-IsValid,
}

pub data Operation : Type 0 where
  adding : (n : ℕ) (privileged : Bool) → Operation
  shrinking : ℕ → Operation
  dismissing : ℕ → Operation
  cleaning : Operation
  removing : (sync : Bool) → Operation

abbrev manager_of : {A : Type 0} → Option (A × Manager) → Option Manager
manager_of none = none
manager_of (some r) = some r.1

-- The manager that an operation leaves, if it returns.
unfoldable pub perform : Operation → Manager → Option Manager
perform (adding n privileged) m = add_workers n privileged m
perform (shrinking less) m = manager_of (shrink_by less m)
perform (dismissing id) m = manager_of (dismiss_worker id m)
perform cleaning m = worker_cleanup m
perform (removing sync) m = remove_all sync m

unfoldable pub perform_all : List Operation → Manager → Option Manager
unfolding perform
perform_all [] m = some m
perform_all (op ∷ ops) m = elim (perform op m) [ none ↦ none | some n ↦ perform_all ops n ]

-- How many ids an operation, or a sequence of them, gives out at most.
abbrev pub new_ids : Operation → ℕ
new_ids (adding n privileged) = n
new_ids _ = 0

abbrev pub all_new_ids : List Operation → ℕ
all_new_ids [] = 0
all_new_ids (op ∷ ops) = new_ids op + all_new_ids ops

-- What an operation that has returned leaves.
abbrev pub Keeps : ℕ → Manager → Manager → Type 0
Keeps more m n = IsValid n × (n.last_worker_id ≤ m.last_worker_id + more) × (n.chan ≡ m.chan)

same-Keeps : (m n : Manager) → IsValid m → m ≡ n → Keeps 0 m n
same-Keeps m n v e = (
  subst IsValid e v,
  omega (arith, ap (λ (k : Manager). k.last_worker_id) e),
  ap (λ (k : Manager). k.chan) (sym e),
)

returned :
    {A : Type 0} (r : Option (A × Manager)) (a : A) (k n : Manager)
    → r ≡ some (a, k)
    → manager_of r ≡ some n
    → k ≡ n
returned r a k n h e = ground (arith, h, e)

adding-Keeps :
    (k : ℕ) (privileged : Bool) (m n : Manager)
    → IsValid m
    → m.last_worker_id + k < 18446744073709551616
    → add_workers k privileged m ≡ some n
    → Keeps k m n
unfolding add_workers
adding-Keeps zero privileged m n v fits e = same-Keeps m n v (ground (arith, e))
adding-Keeps (suc k) privileged m n v fits e =
    let r = add_workers_grows (suc k) privileged m v (omega arith) fits in
    let same : r.0 ≡ n = ground (arith, e, r.1) in
    (
      add_workers-IsValid (suc k) privileged m n v fits e,
      omega (arith, r.2.last_moved, ap (λ (q : Manager). q.last_worker_id) same),
      ap (λ (q : Manager). q.chan) (sym same) ∙ r.2.chan_kept,
    )

shrinking-Keeps :
    (less : ℕ) (m n : Manager) → IsValid m → manager_of (shrink_by less m) ≡ some n → Keeps 0 m n
unfolding shrink_by
shrinking-Keeps zero m n v e = same-Keeps m n v (ground (arith, e))
shrinking-Keeps (suc k) m n v e = elim (Bool-cases (ltb (length m.workers) (suc k))) [
  | inl over ↦ absurd (ground (arith, e, shrink_by_panics (suc k) m (ground arith)))
  | inr within ↦
      let (kept, gone, split, size, runs, valid) =
        shrink_by_takes_last (suc k) m v (omega arith) (ground arith) in
      let shrunk = record m { workers = kept; log = m.log ++ shrink_workers gone } in
      let same = returned (shrink_by (suc k) m) (ids gone) shrunk n runs e in
      (
        subst IsValid same valid,
        omega (arith, ap (λ (q : Manager). q.last_worker_id) same),
        ap (λ (q : Manager). q.chan) (sym same),
      )
]

dismissing-Keeps :
    (id : ℕ) (m n : Manager) → IsValid m → manager_of (dismiss_worker id m) ≡ some n → Keeps 0 m n
dismissing-Keeps id m n v e = elim (dismiss_worker_removes id m v) [
  | inl (gone, runs) ↦ same-Keeps m n v (ground (arith, e, runs))
  | inr (w, left, hit, runs, perm) ↦
      let gone = dismissed w left m in
      let same = returned (dismiss_worker id m) (some id) gone n runs e in
      (
        dismiss_worker-IsValid id m n (some id) v
            (runs ∙ ap (λ (q : Manager). some (some id, q)) same),
        omega (arith, ap (λ (q : Manager). q.last_worker_id) same),
        ap (λ (q : Manager). q.chan) (sym same),
      )
]

cleaning-Keeps : (m n : Manager) → IsValid m → worker_cleanup m ≡ some n → Keeps 0 m n
cleaning-Keeps m n v e =
    let r = worker_cleanup_keeps m in
    let same : r.0 ≡ n = ground (arith, e, r.1) in
    let valid : IsValid r.0 = fewer-IsValid m r.0 v (r.3.same_lock ∙ v.free) r.3.same_last (λ i.
      omega
        (arith, count-ids-perm i r.0.workers (live m.workers) r.2, count-ids-live i m.workers)) in
    (
      subst IsValid same valid,
      omega (arith, r.3.same_last, ap (λ (q : Manager). q.last_worker_id) same),
      ap (λ (q : Manager). q.chan) (sym same) ∙ r.3.same_chan,
    )

removing-Keeps :
    (sync : Bool) (m n : Manager) → IsValid m → remove_all sync m ≡ some n → Keeps 0 m n
unfolding remove_all reset_lock
removing-Keeps sync m n v e = elim (List-cases m.workers) [
  | inl gone ↦ same-Keeps m n v (ground (arith, e))
  | inr (w, ws, more) ↦
      let last : n.last_worker_id ≡ 15 = ground (arith, spin_free m v.free) in
      let none_left : n.workers ≡ [] = ground (arith, spin_free m v.free) in
      let lock : n.mutating ≡ 0 = ground (arith, spin_free m v.free) in
      let empty : (i : ℕ) → count i (ids n.workers) ≡ 0 =
        λ i. ap (λ (l : List Worker). count i (ids l)) none_left in
      (
        record {
          free = lock;
          distinct = λ i. omega (arith, empty i);
          ranged = λ i h. absurd (omega (arith, empty i, h));
          floor = omega (arith, last);
          fits = omega (arith, last);
        },
        omega (arith, last, v.floor),
        ground (arith, e, more, spin_free m v.free),
      )
]

pub perform-Keeps :
    (op : Operation) (m n : Manager)
    → IsValid m
    → m.last_worker_id + new_ids op < 18446744073709551616
    → perform op m ≡ some n
    → Keeps (new_ids op) m n
unfolding perform
perform-Keeps (adding k privileged) m n v fits e = adding-Keeps k privileged m n v fits e
perform-Keeps (shrinking less) m n v fits e = shrinking-Keeps less m n v e
perform-Keeps (dismissing id) m n v fits e = dismissing-Keeps id m n v e
perform-Keeps cleaning m n v fits e = cleaning-Keeps m n v e
perform-Keeps (removing sync) m n v fits e = removing-Keeps sync m n v e

-- Whatever operations a valid manager performs, in whatever order, it is valid afterwards, if they
-- all return and the ids that they may give out fit a `usize`.
pub perform_all-IsValid :
    (ops : List Operation) (m n : Manager)
    → IsValid m
    → m.last_worker_id + all_new_ids ops < 18446744073709551616
    → perform_all ops m ≡ some n
    → IsValid n
unfolding perform_all
perform_all-IsValid [] m n v fits e = (same-Keeps m n v (ground (arith, e))).0
perform_all-IsValid (op ∷ ops) m n v fits e = elim (Option-cases (perform op m)) [
  | inl panics ↦ absurd (ground (arith, panics, e))
  | inr (k, first) ↦
      let (valid, last, chan) = perform-Keeps op m k v (omega (arith, fits)) first in
      let rest : perform_all ops k ≡ some n = ground (arith, first, e) in
      perform_all-IsValid ops k n valid (omega (arith, last, fits)) rest
]

-- ===== src/Manager/Ids.antt =====
-- src/manager.rs: `first_worker_id`, `next_worker_id` and `last_worker_id` as a way through the
-- workers.
use mathlib.Core.List.{append_assoc}
use thread_pool.Prelude.{
  ℕ, zero, suc, ◌<◌, ◌≡◌, refl, sym, ap, ◌∙◌, true, false, List, [], ◌∷◌, ◌++◌, if◌then◌else◌, ◌==◌,
  inl, inr, length, arith, count,
}
use thread_pool.Worker.{Worker}
use thread_pool.Worker.Serving.{List-cases}
use thread_pool.Manager.{Manager, init_id}
use thread_pool.Manager.Sizing.{
  ids, first_of, last_of, first_worker_id, last_worker_id, next_loop, next_worker_id,
}
use thread_pool.Manager.Valid.{IsValid, count-ids-append}

-- The ids met by asking for the next one, so many times at most; 0 means that there is none.
abbrev pub walk : ℕ → ℕ → Manager → List ℕ
walk zero curr m = []
walk (suc n) curr m = if curr == 0 then [] else curr ∷ walk n (next_worker_id curr m) m

next_loop_found : (id : ℕ) (rest : List Worker) → next_loop true id rest ≡ first_of rest
unfolding next_loop
next_loop_found id [] = refl
next_loop_found id (w ∷ rest) = refl

next_loop_at :
    (id : ℕ) (before : List Worker) (w : Worker) (rest : List Worker)
    → count id (ids before) ≡ 0
    → w.id ≡ id
    → next_loop false id (before ++ w ∷ rest) ≡ first_of rest
unfolding next_loop
next_loop_at id [] w rest gone e = ground (arith, next_loop_found id rest)
next_loop_at id (b ∷ before) w rest gone e = ground (arith, next_loop_at id before w rest)

-- In a valid manager a worker's own id is not 0, and is the id of no worker before it.
own_id :
    (before : List Worker) (w : Worker) (rest : List Worker) (m : Manager)
    → IsValid m
    → m.workers ≡ before ++ w ∷ rest
    → (init_id < w.id) × (count w.id (ids before) ≡ 0)
own_id before w rest m v e =
    let tally =
      ap (λ (l : List Worker). count w.id (ids l)) e ∙ count-ids-append w.id before (w ∷ rest) in
    ground (arith, tally, v.distinct w.id, v.ranged w.id)

next_worker_id_at :
    (before : List Worker) (w : Worker) (rest : List Worker) (m : Manager)
    → IsValid m
    → m.workers ≡ before ++ w ∷ rest
    → next_worker_id w.id m ≡ first_of rest
unfolding next_worker_id
next_worker_id_at before w rest m v e =
    ap (next_loop false w.id) e
    ∙ next_loop_at w.id before w rest (own_id before w rest m v e).1 refl

walk_from :
    (before : List Worker) (w : Worker) (rest : List Worker) (m : Manager)
    → IsValid m
    → m.workers ≡ before ++ w ∷ rest
    → walk (suc (length rest)) w.id m ≡ ids (w ∷ rest)
walk_from before w [] m v e = ground (arith, own_id before w [] m v e)
walk_from before w (x ∷ rest) m v e =
    let e' = e ∙ sym (append_assoc before (w ∷ []) (x ∷ rest)) in
    let tail = walk_from (before ++ w ∷ []) x rest m v e' in
    let next = next_worker_id_at before w (x ∷ rest) m v e in
    let large = (own_id before w (x ∷ rest) m v e).0 in
    ground (arith, ap (λ (i : ℕ). walk (suc (length rest)) i m) next ∙ tail)

last_of_append : (before : List Worker) (w : Worker) → last_of (before ++ w ∷ []) ≡ w.id
last_of_append [] w = refl
last_of_append (b ∷ []) w = refl
last_of_append (b ∷ a ∷ before) w = last_of_append (a ∷ before) w

-- In a valid manager, to ask for the first id and then for the next one as often as there are
-- workers yields all their ids, in order.
pub walk-ids :
    (m : Manager) → IsValid m → walk (length m.workers) (first_worker_id m) m ≡ ids m.workers
unfolding first_worker_id
walk-ids m v = elim (List-cases m.workers) [
  | inl gone ↦ ap (λ (l : List Worker). walk (length l) (first_of l) m) gone ∙ sym (ap ids gone)
  | inr (w, ws, e) ↦
      ap (λ (l : List Worker). walk (length l) (first_of l) m) e
      ∙ walk_from [] w ws m v e
      ∙ sym (ap ids e)
]

-- In a valid manager, the last id is that of the last worker, and the next one after it is 0, for
-- none.
pub walk_ends :
    (before : List Worker) (w : Worker) (m : Manager)
    → IsValid m
    → m.workers ≡ before ++ w ∷ []
    → (last_worker_id m ≡ w.id) × (next_worker_id (last_worker_id m) m ≡ 0)
unfolding last_worker_id
walk_ends before w m v e =
    let last : last_of m.workers ≡ w.id = ap last_of e ∙ last_of_append before w in
    (last, ap (λ i. next_worker_id i m) last ∙ next_worker_id_at before w [] m v e)

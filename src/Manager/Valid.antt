-- ===== src/Manager/Valid.antt =====
-- src/manager.rs: what holds of a manager between two operations, and how lists of ids count.
use mathlib.Core.List.{Perm, Permᴰ}
use mathlib.Core.List.Perm
use mathlib.Core.Logic.{∥∥₁_elim}
use native.Mathlib.Nat.{ℕ_set}
use thread_pool.Prelude.{
  ℕ, zero, suc, ◌+◌, ◌≤◌, ◌<◌, ◌≡◌, refl, ap₂, ◌∙◌, List, [], ◌∷◌, ◌++◌, if◌then◌else◌, ◌==◌, arith,
  count,
}
use thread_pool.Worker.{Worker}
use thread_pool.Manager.{Manager, init_id}
use thread_pool.Manager.Sizing.{ids}
use thread_pool.Manager.Cleanup.{live}

-- The lock is free; the workers' ids differ, and lie between the reserved ones and the last one
-- given out, which fits a `usize`.
pub record IsValid (m : Manager) : Type 0 where
  pub free : m.mutating ≡ 0
  pub distinct : (i : ℕ) → count i (ids m.workers) ≤ 1
  pub ranged : (i : ℕ) → 0 < count i (ids m.workers) → (init_id < i) × (i ≤ m.last_worker_id)
  pub floor : init_id ≤ m.last_worker_id
  pub fits : m.last_worker_id < 18446744073709551616

count-perm_d : (i : ℕ) {xs ys : List ℕ} → Permᴰ xs ys → count i xs ≡ count i ys
count-perm_d i Permᴰ.nil = refl
count-perm_d i (Permᴰ.cons {l₁ = xs} {l₂ = ys} e p) =
    ap₂ (λ (a : ℕ) (n : ℕ). (if a == i then 1 else 0) + n) e (count-perm_d i p)
count-perm_d i (Permᴰ.swap {l = xs} e f) = ground (arith, e, f)
count-perm_d i (Permᴰ.trans p q) = count-perm_d i p ∙ count-perm_d i q

pub count-perm : (i : ℕ) (xs ys : List ℕ) → Perm xs ys → count i xs ≡ count i ys
count-perm i xs ys p = ∥∥₁_elim p (ℕ_set (count i xs) (count i ys)) (count-perm_d i)

pub count-ids-perm :
    (i : ℕ) (xs ys : List Worker) → Perm xs ys → count i (ids xs) ≡ count i (ids ys)
count-ids-perm i xs ys p = count-perm i (ids xs) (ids ys) (Perm.map (λ w. w.id) p)

pub count-ids-live : (i : ℕ) (ws : List Worker) → count i (ids (live ws)) ≤ count i (ids ws)
count-ids-live i [] = omega arith
count-ids-live i (w ∷ ws) = ground (arith, count-ids-live i ws)

-- `a`, `a + 1`, …
abbrev pub numbers : ℕ → ℕ → List ℕ
numbers zero a = []
numbers (suc k) a = a ∷ numbers k (a + 1)

pub count-numbers :
    (i k a : ℕ) → (count i (numbers k a) ≤ 1) × (0 < count i (numbers k a) → (a ≤ i) × (i < a + k))
count-numbers i zero a = ground arith
count-numbers i (suc k) a = ground (arith, count-numbers i k (a + 1))

pub count-ids-append :
    (i : ℕ) (xs ys : List Worker) → count i (ids (xs ++ ys)) ≡ count i (ids xs) + count i (ids ys)
count-ids-append i [] ys = omega arith
count-ids-append i (w ∷ xs) ys = omega (arith, count-ids-append i xs ys)

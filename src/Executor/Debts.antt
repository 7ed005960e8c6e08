-- ===== src/Executor/Debts.antt =====
-- src/executor.rs: the tasks of a queue, and the replies that are due.
use thread_pool.Prelude.{ℕ, suc, ◌+◌, ◌<◌, ◌≡◌, refl, true, List, [], ◌∷◌, ◌++◌, none, some, arith}
use thread_pool.Executor.{Future, polled}
use thread_pool.Executor.Local.{AsyncTask, IsAsync}

-- A reply that is due: the number of its call, the polls that its future is still pending for, and
-- the value.
pub record Debt (T : Type 0) : Type 0 where
  pub call : ℕ
  pub left : ℕ
  pub val : T

abbrev pub reply_of : {T : Type 0} → Debt T → ℕ × T
reply_of d = (d.call, d.val)

abbrev pub effort : {T : Type 0} → List (Debt T) → ℕ
effort [] = 0
effort (d ∷ ds) = 1 + d.left + effort ds

pub effort-append :
    {T : Type 0} (ds : List (Debt T)) (d : Debt T)
    → effort (ds ++ d ∷ []) ≡ effort ds + (1 + d.left)
effort-append [] d = omega arith
effort-append (e ∷ ds) d = omega (arith, effort-append ds d)

module _ {T : Type 0} {fut : Future T} {a : AsyncTask T fut} (async : IsAsync T fut a) where
  -- The future is pending for so many polls, wakes its task in each, and is ready at the next one.
  pub record IsDue (n : ℕ) (s : fut.State) (val : T) : Type 0 where
    pub pending : (i : ℕ) → i < n → (fut.poll (polled fut i s)).0 ≡ none
    pub wakes : (i : ℕ) → i < n → async.woken (polled fut (suc i) s) ≡ true
    pub ready : (fut.poll (polled fut n s)).0 ≡ some val

  -- The tasks of a queue, one for each debt, in its order.
  abbrev pub Owes : List (Debt T) → List (ℕ × a.Task) → Type 0
  Owes [] [] = Unit
  Owes (d ∷ ds) ((id, task) ∷ tasks) =
      (id ≡ d.call) × IsDue d.left (async.holds task) d.val × Owes ds tasks
  Owes [] (task ∷ tasks) = ⊥
  Owes (d ∷ ds) [] = ⊥

  -- A poll of a future that is still pending.
  pub IsDue-next :
      (n : ℕ) (s : fut.State) (val : T) → IsDue (suc n) s val → IsDue n (fut.poll s).1 val
  IsDue-next n s val d = record {
    pending = λ i h. d.pending (suc i) (omega (arith, h));
    wakes = λ i h. d.wakes (suc i) (omega (arith, h));
    ready = d.ready;
  }

  pub Owes-append :
      (ds : List (Debt T)) (tasks : List (ℕ × a.Task)) (d : Debt T) (task : a.Task)
      → Owes ds tasks
      → IsDue d.left (async.holds task) d.val
      → Owes (ds ++ d ∷ []) (tasks ++ (d.call, task) ∷ [])
  Owes-append [] [] d task h due = (refl, due, tt)
  Owes-append (e ∷ ds) ((id, other) ∷ tasks) d task (same, first, rest) due =
      (same, first, Owes-append ds tasks d task rest due)
  Owes-append [] (other ∷ tasks) d task h due = absurd h
  Owes-append (e ∷ ds) [] d task h due = absurd h

-- ===== src/Tests/Executors.antt =====
-- src/executor.rs and src/debug.rs: futures that count down, and a switch that is read twice.
use mathlib.Core.List.{Perm}
use thread_pool.Prelude.{
  ℕ, zero, suc, ◌<◌, ◌≡◌, refl, arith, true, false, [], ◌∷◌, Option, none, some, ok,
}
use thread_pool.Executor.{Future, block_on, polled, block_on_waits}
use thread_pool.Executor.Local.{AsyncTask, IsAsync, Local, enqueue, polls}
use thread_pool.Executor.Debts.{IsDue}
use thread_pool.Executor.Finishing.{enqueue_replies}

-- A future that counts down, and then has the value 42.
abbrev countdown : ℕ → Option ℕ × ℕ
countdown zero = (some 42, 0)
countdown (suc n) = (none, n)

abbrev timer : Future ℕ
timer = record { State = ℕ; poll = countdown }

timer_waits : (i : ℕ) → i < 2 → (countdown (polled timer i 2)).0 ≡ none
timer_waits zero below = refl
timer_waits (suc zero) below = refl
timer_waits (suc (suc i)) below = absurd (omega (arith, below))

block_on_waits_example :
    (block_on timer false 2 2 ≡ some (ok 42)) × (block_on timer true 2 2 ≡ none)
block_on_waits_example = block_on_waits timer 2 2 2 42 timer_waits refl

-- A task is what its future still counts.
abbrev rerun : ℕ → Option ℕ × Option ℕ
rerun zero = (some 42, none)
rerun (suc n) = (none, some n)

abbrev tasks : AsyncTask ℕ timer
tasks = record { Task = ℕ; spawn_local = λ n. n; run = rerun }

completed : (t val : ℕ) → (countdown t).0 ≡ some val → rerun t ≡ (some val, none)
completed zero val e = ground (arith, e)
completed (suc n) val e = absurd (ground (arith, e))

rescheduled :
    (t : ℕ) → (countdown t).0 ≡ none → (u : ℕ) × (rerun t ≡ (none, some u)) × (u ≡ (countdown t).1)
rescheduled zero e = absurd (ground (arith, e))
rescheduled (suc n) e = (n, refl, refl)

abbrev tasks_async : IsAsync ℕ timer tasks
tasks_async = record {
  holds = λ t. t;
  woken = λ s. true;
  spawned = λ s. refl;
  completes = completed;
  pends = λ t e woken. rescheduled t e;
  sleeps = λ t e woken. absurd (ground (arith, woken));
}

-- A thread with one task in its queue, of its call number 0.
abbrev local : Local tasks
local = record { queue = (0, 1) ∷ []; replies = []; calls = 1 }

two-IsDue : IsDue tasks_async 2 2 42
two-IsDue = record { pending = timer_waits; wakes = λ i below. refl; ready = refl }

one_waits : (i : ℕ) → i < 1 → (countdown (polled timer i 1)).0 ≡ none
one_waits zero below = refl
one_waits (suc i) below = absurd (omega (arith, below))

one-IsDue : IsDue tasks_async 1 1 42
one-IsDue = record { pending = one_waits; wakes = λ i below. refl; ready = refl }

enqueue_replies_example :
    ((enqueue tasks 2 local).0 ≡ 1)
    × ((polls tasks 4 (enqueue tasks 2 local).1).queue ≡ [])
    × Perm (polls tasks 4 (enqueue tasks 2 local).1).replies ((1, 42) ∷ (0, 42) ∷ [])
enqueue_replies_example =
    enqueue_replies tasks_async 2 4 42 2 (record { call = 0; left = 1; val = 42 } ∷ []) local
      two-IsDue (refl, one-IsDue, tt) (omega arith)

-- ===== src/Executor/Finishing.antt =====
-- src/executor.rs: what becomes of the tasks of a thread that is polled.
use mathlib.Core.List.{Perm, append_assoc, perm_middle, append-nil}
use mathlib.Core.List.Perm
use thread_pool.Prelude.{
  ℕ, zero, suc, ◌+◌, ◌≤◌, ◌<◌, ◌≡◌, refl, sym, ap, subst, ◌∙◌, List, [], ◌∷◌, ◌++◌, map, none, some,
  ◌⊎◌, inl, inr, arith,
}
use thread_pool.Executor.{Future}
use thread_pool.Executor.Debts.{
  Debt, reply_of, effort, IsDue, Owes, IsDue-next, Owes-append, effort-append,
}
use thread_pool.Executor.Local.{AsyncTask, IsAsync, Local, popped, run_task, enqueue, poll, polls}

ℕ-cases : (n : ℕ) → (n ≡ 0) ⊎ ((k : ℕ) × (n ≡ suc k))
ℕ-cases zero = inl refl
ℕ-cases (suc k) = inr (k, refl)

module _ {T : Type 0} {fut : Future T} {a : AsyncTask T fut} (async : IsAsync T fut a) where
  polls_nothing : (m : ℕ) (x : Local a) → x.queue ≡ [] → polls a m x ≡ x
  unfolding polls poll
  polls_nothing zero x e = refl
  polls_nothing (suc m) x e =
      let stays : poll a x ≡ x = ap (λ (q : List (ℕ × a.Task)). popped a q x) e in
      ap (polls a m) stays ∙ polls_nothing m x e

  poll_completes :
      (id : ℕ) (task : a.Task) (tasks : List (ℕ × a.Task)) (val : T) (x : Local a)
      → x.queue ≡ (id, task) ∷ tasks
      → a.run task ≡ (some val, none)
      → ((poll a x).queue ≡ tasks) × ((poll a x).replies ≡ x.replies ++ (id, val) ∷ [])
  unfolding poll run_task
  poll_completes id task tasks val x e runs =
      (ground (arith, e, runs, append-nil tasks), ground (arith, e, runs))

  poll_again :
      (id : ℕ) (task u : a.Task) (tasks : List (ℕ × a.Task)) (x : Local a)
      → x.queue ≡ (id, task) ∷ tasks
      → a.run task ≡ (none, some u)
      → ((poll a x).queue ≡ tasks ++ (id, u) ∷ []) × ((poll a x).replies ≡ x.replies)
  unfolding poll run_task
  poll_again id task u tasks x e runs =
      (ground (arith, e, runs), ground (arith, e, runs, append-nil x.replies))

  -- What a poll makes of the debts: there is less to do, and no reply is lost.
  record Advances (ds : List (Debt T)) (x : Local a) : Type 0 where
    es : List (Debt T)
    owes : Owes async es (poll a x).queue
    less : effort es < effort ds
    same : Perm ((poll a x).replies ++ map reply_of es) (x.replies ++ map reply_of ds)

  -- The first future is ready.
  ready-Advances :
      (d : Debt T) (ds : List (Debt T)) (task : a.Task) (tasks : List (ℕ × a.Task)) (x : Local a)
      → x.queue ≡ (d.call, task) ∷ tasks
      → (fut.poll (async.holds task)).0 ≡ some d.val
      → Owes async ds tasks
      → Advances (d ∷ ds) x
  ready-Advances d ds task tasks x e ready rest =
      let (queue, replies) =
        poll_completes d.call task tasks d.val x e (async.completes task d.val ready) in
      let all : (poll a x).replies ++ map reply_of ds ≡ x.replies ++ reply_of d ∷ map reply_of ds =
        ap (λ (l : List (ℕ × T)). l ++ map reply_of ds) replies
        ∙ append_assoc x.replies (reply_of d ∷ []) (map reply_of ds) in
      record {
        es = ds;
        owes = subst (Owes async ds) (sym queue) rest;
        less = omega arith;
        same =
            subst (λ (l : List (ℕ × T)). Perm l (x.replies ++ reply_of d ∷ map reply_of ds))
              (sym all) (Perm.refl _);
      }

  -- The first future is pending, and its task goes to the end of the queue.
  pending-Advances :
      (k : ℕ) (d : Debt T) (ds : List (Debt T)) (task : a.Task) (tasks : List (ℕ × a.Task))
      (x : Local a)
      → x.queue ≡ (d.call, task) ∷ tasks
      → d.left ≡ suc k
      → IsDue async (suc k) (async.holds task) d.val
      → Owes async ds tasks
      → Advances (d ∷ ds) x
  pending-Advances k d ds task tasks x e more due rest =
      let (u, runs, next) =
        async.pends task (due.pending 0 (omega arith)) (due.wakes 0 (omega arith)) in
      let (queue, replies) = poll_again d.call task u tasks x e runs in
      let later : Debt T = record d { left = k } in
      let still =
        subst (λ (s : fut.State). IsDue async k s d.val) (sym next)
          (IsDue-next async k (async.holds task) d.val due) in
      let moved : Perm (map reply_of (ds ++ later ∷ [])) (reply_of d ∷ map reply_of ds) =
        Perm.map reply_of (
          subst (λ (l : List (Debt T)). Perm (ds ++ later ∷ []) (later ∷ l)) (append-nil ds)
            (perm_middle ds [])) in
      record {
        es = ds ++ later ∷ [];
        owes =
            subst (Owes async (ds ++ later ∷ [])) (sym queue)
              (Owes-append async ds tasks later u rest still);
        less = omega (arith, effort-append ds later, more);
        same =
            subst
              (λ (l : List (ℕ × T)).
                Perm (l ++ map reply_of (ds ++ later ∷ []))
                  (x.replies ++ reply_of d ∷ map reply_of ds))
              (sym replies) (Perm.append_left x.replies moved);
      }

  Advances-first :
      (d : Debt T) (ds : List (Debt T)) (id : ℕ) (task : a.Task) (tasks : List (ℕ × a.Task))
      (x : Local a)
      → x.queue ≡ (id, task) ∷ tasks
      → id ≡ d.call
      → IsDue async d.left (async.holds task) d.val
      → Owes async ds tasks
      → Advances (d ∷ ds) x
  Advances-first d ds id task tasks x e same due rest =
      let here : x.queue ≡ (d.call, task) ∷ tasks =
        subst (λ (i : ℕ). x.queue ≡ (i, task) ∷ tasks) same e in
      elim (ℕ-cases d.left) [
        | inl none_left ↦
            let now = subst (λ (n : ℕ). IsDue async n (async.holds task) d.val) none_left due in
            ready-Advances d ds task tasks x here now.ready rest
        | inr (k, more) ↦
            let not_yet = subst (λ (n : ℕ). IsDue async n (async.holds task) d.val) more due in
            pending-Advances k d ds task tasks x here more not_yet rest
      ]

  -- All the tasks of a queue finish, in rounds.
  polls_finish :
      (m : ℕ) (ds : List (Debt T)) (tasks : List (ℕ × a.Task)) (x : Local a)
      → x.queue ≡ tasks
      → Owes async ds tasks
      → effort ds ≤ m
      → ((polls a m x).queue ≡ []) × Perm (polls a m x).replies (x.replies ++ map reply_of ds)
  unfolding polls
  polls_finish m [] [] x e h enough =
      let stays = polls_nothing m x e in
      (
        ap (λ (y : Local a). y.queue) stays ∙ e,
        subst (λ (y : Local a). Perm y.replies (x.replies ++ [])) (sym stays)
            (subst (Perm x.replies) (sym (append-nil x.replies)) (Perm.refl x.replies)),
      )
  polls_finish m [] (task ∷ tasks) x e h enough = absurd h
  polls_finish m (d ∷ ds) [] x e h enough = absurd h
  polls_finish zero (d ∷ ds) ((id, task) ∷ tasks) x e h enough = absurd (omega (arith, enough))
  polls_finish (suc m) (d ∷ ds) ((id, task) ∷ tasks) x e (same, due, rest) enough =
      let step = Advances-first d ds id task tasks x e same due rest in
      let (gone, replies) =
        polls_finish m step.es (poll a x).queue (poll a x) refl step.owes
          (omega (arith, step.less, enough)) in
      (gone, Perm.trans replies step.same)

  -- An enqueued future finishes, whatever waits in the queue of its thread. Let it, and the futures
  -- of the tasks in the queue, each be pending for some number of polls, wake the task in each, and
  -- be ready with a value at the next one; the call itself polls the new one once. Then after as
  -- many polls of the thread as are still needed, or more, the queue is empty, and each receiver
  -- has got the value of its future, once.
  pub enqueue_replies :
      (n m : ℕ) (val : T) (future : fut.State) (ds : List (Debt T)) (x : Local a)
      → IsDue async n future val
      → Owes async ds x.queue
      → n + effort ds ≤ m
      → let (id, y) = enqueue a future x in
        (id ≡ x.calls)
        × ((polls a m y).queue ≡ [])
        × Perm (polls a m y).replies (x.replies ++ (x.calls, val) ∷ map reply_of ds)
  unfolding enqueue poll polls
  enqueue_replies n m val future ds x due owes enough =
      let task = a.spawn_local future in
      let start = record x { queue = (x.calls, task) ∷ x.queue; calls = x.calls + 1 } in
      let first = subst (λ (s : fut.State). IsDue async n s val) (sym (async.spawned future)) due in
      let (gone, replies) =
        polls_finish (suc m) (record { call = x.calls; left = n; val = val } ∷ ds)
          ((x.calls, task) ∷ x.queue) start refl (refl, first, owes) (omega (arith, enough)) in
      (refl, gone, replies)

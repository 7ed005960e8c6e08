-- ===== src/Manager/Cleanup.antt =====
-- src/manager.rs, `worker_cleanup`: the loop ends, and what it leaves.
use mathlib.Core.List.{Perm, filter, append_assoc, append-nil}
use mathlib.Core.List.Perm
use mathlib.Core.Bool.{false≢true}
use thread_pool.Prelude.{
  ℕ, zero, suc, ◌+◌, ◌-◌, ◌<◌, ◌≡◌, refl, sym, ap, subst, ◌∙◌, Bool, true, false, List, [], ◌∷◌,
  ◌++◌, some, length, length-append, arith, Bool-cases, inl, inr,
}
use thread_pool.Prelude.Vec.{
  close_gap, swap_remove_at, get_elem?_at, close_gap-perm, length-close_gap,
}
use thread_pool.Model.{Event}
use thread_pool.Worker
use thread_pool.Worker.{Worker}
use thread_pool.Manager.{Manager, cleanup_loop, worker_cleanup, logs}

abbrev pub dec_false : (b : Bool) → Dec (b ≡ false)
dec_false true = no λ e. false≢true (sym e)
dec_false false = yes refl

-- The workers that have not marked themselves for retirement.
abbrev pub live : List Worker → List Worker
live = filter λ w. dec_false (Worker.is_terminated w)

abbrev pub dec_true : (b : Bool) → Dec (b ≡ true)
dec_true true = yes refl
dec_true false = no false≢true

-- The workers that have.
abbrev pub marked : List Worker → List Worker
marked = filter λ w. dec_true (Worker.is_terminated w)

-- What is asked of the threads and hooks when a worker is retired and dropped.
abbrev pub departure : Worker → List Event
departure w = let (joined, events) = Worker.retire w in events ++ Worker.drop joined

abbrev pub departures : List Worker → List Event
departures [] = []
departures (w ∷ ws) = departure w ++ departures ws

-- The manager as it was, but for its workers and the log.
pub record Kept (m n : Manager) : Type 0 where
  pub same_config : n.config ≡ m.config
  pub same_lock : n.mutating ≡ m.mutating
  pub same_last : n.last_worker_id ≡ m.last_worker_id
  pub same_idle : n.idle_threshold ≡ m.idle_threshold
  pub same_chan : n.chan ≡ m.chan

pub Kept-trans : {m n o : Manager} → Kept m n → Kept n o → Kept m o
Kept-trans a b = record {
  same_config = b.same_config ∙ a.same_config;
  same_lock = b.same_lock ∙ a.same_lock;
  same_last = b.same_last ∙ a.same_last;
  same_idle = b.same_idle ∙ a.same_idle;
  same_chan = b.same_chan ∙ a.same_chan;
}

live_yes :
    (w : Worker) (ws : List Worker) → Worker.is_terminated w ≡ false → live (w ∷ ws) ≡ w ∷ live ws
live_yes w ws e = ground arith

live_no : (w : Worker) (ws : List Worker) → Worker.is_terminated w ≡ true → live (w ∷ ws) ≡ live ws
live_no w ws e = ground arith

marked_yes :
    (w : Worker) (ws : List Worker)
    → Worker.is_terminated w ≡ true
    → marked (w ∷ ws) ≡ w ∷ marked ws
marked_yes w ws e = ground arith

marked_no :
    (w : Worker) (ws : List Worker) → Worker.is_terminated w ≡ false → marked (w ∷ ws) ≡ marked ws
marked_no w ws e = ground arith

-- From any position on, with the workers before it already kept.
cleanup_loop_keeps :
    (fuel : ℕ) (before rest : List Worker) (pos end : ℕ) (m : Manager)
    → m.workers ≡ before ++ rest
    → pos ≡ length before
    → end ≡ length before + length rest
    → length rest < fuel
    → (n : Manager) × (cleanup_loop fuel pos end m ≡ some n)
      × Perm n.workers (before ++ live rest)
      × Kept m n
      × (gone : List Worker) × Perm gone (marked rest)
      × (n.log ≡ m.log ++ departures gone)
unfolding cleanup_loop
cleanup_loop_keeps zero before rest pos end m e p q h = absurd (omega arith)
cleanup_loop_keeps (suc fuel) before [] pos end m e p q h = (
  m,
  ground arith,
  rw e (Perm.refl _),
  record {
    same_config = refl;
    same_lock = refl;
    same_last = refl;
    same_idle = refl;
    same_chan = refl;
  },
  [],
  Perm.refl [],
  sym (append-nil m.log),
)
cleanup_loop_keeps (suc fuel) before (w ∷ ws) pos end m e p q h =
    elim (Bool-cases (Worker.is_terminated w)) [
      | inr stays ↦
          let e' : m.workers ≡ (before ++ w ∷ []) ++ ws =
            e ∙ sym (append_assoc before (w ∷ []) ws) in
          let l = length-append before (w ∷ []) in
          let r =
            cleanup_loop_keeps fuel (before ++ w ∷ []) ws (pos + 1) end m e' (omega (arith, l))
              (omega (arith, l)) (omega arith) in
          (
            r.0,
            ground (arith, get_elem?_at before w ws, r.1),
            subst (Perm r.0.workers)
                (append_assoc before (w ∷ []) (live ws)
                  ∙ ap (◌++◌ before) (sym (live_yes w ws stays)))
                r.2,
            r.3,
            r.4,
            subst (Perm r.4) (sym (marked_no w ws stays)) r.5,
            r.6,
          )
      | inl ends ↦
          let left = close_gap (w ∷ ws) in
          let (joined, events) = Worker.retire w in
          let m' = logs (record m { workers = before ++ left }) (events ++ Worker.drop joined) in
          let l = length-close_gap w ws in
          let r =
            cleanup_loop_keeps fuel before left pos (end - 1) m' refl p (omega (arith, l))
              (omega (arith, l)) in
          let rest = Perm.filter (λ v. dec_false (Worker.is_terminated v)) (close_gap-perm w ws) in
          (
            r.0,
            ground (arith, get_elem?_at before w ws, swap_remove_at before w ws, r.1),
            subst (λ l. Perm r.0.workers (before ++ l)) (sym (live_no w ws ends))
                (Perm.trans r.2 (Perm.append_left before rest)),
            record {
              same_config = r.3.same_config;
              same_lock = r.3.same_lock;
              same_last = r.3.same_last;
              same_idle = r.3.same_idle;
              same_chan = r.3.same_chan;
            },
            w ∷ r.4,
            subst (Perm (w ∷ r.4)) (sym (marked_yes w ws ends)) (
                Perm.cons w (
                  Perm.trans r.5
                    (Perm.filter (λ v. dec_true (Worker.is_terminated v)) (close_gap-perm w ws)))),
            r.6 ∙ append_assoc m.log (departure w) (departures r.4),
          )
    ]

-- The cleanup ends without a fault. It leaves exactly the workers that have not marked themselves
-- for retirement, each as often as before and maybe in another order. The others it retires and
-- drops, each once, in some order. It changes nothing else.
pub worker_cleanup_keeps :
    (m : Manager)
    → (n : Manager) × (worker_cleanup m ≡ some n)
      × Perm n.workers (live m.workers)
      × Kept m n
      × (gone : List Worker) × Perm gone (marked m.workers)
      × (n.log ≡ m.log ++ departures gone)
unfolding worker_cleanup
worker_cleanup_keeps m =
    cleanup_loop_keeps (suc (length m.workers)) [] m.workers 0 (length m.workers) m refl refl
      (omega arith) (omega arith)

-- ===== src/System/Graceful.antt =====
-- A pool that is used, closed, and worked off: src/pool.rs and src/worker.rs together.
use thread_pool.Prelude.{
  ℕ, ◌+◌, ◌*◌, ◌≤◌, ◌≡◌, refl, sym, ap, ap₂, subst, inl, inr, true, ◌||◌, List, [], ◌∷◌, ◌++◌, none,
  some, ◌==◌, Option-cases, count, length, arith,
}
use thread_pool.Model.{Message, flag_closing, flag_rest}
use thread_pool.Channel.{Channel, IsFifo}
use thread_pool.Idle.{IdleThreshold}
use thread_pool.Worker.Loop.{Clock, round}
use thread_pool.System.{System, Reach, here, next, works, thread_of, after_round}
use thread_pool.System.Jobs.{jobs_in}
use thread_pool.System.Effects.{queued}
use thread_pool.System.Conservation.{Accounted, jobs_conserved}
use thread_pool.System.Messages.{HasPlainQueues, Step-HasPlainQueues}
use thread_pool.System.Draining.Together.{rounds, AllDrain, Among, left_in, closing_pool_empties}

module _ (c : Channel) (fifo : IsFifo c) where
  open fifo use {contents}

  pub Reach-HasPlainQueues :
      (s t : System c)
      → Reach c fifo s t
      → HasPlainQueues c fifo s.pool
      → HasPlainQueues c fifo t.pool
  Reach-HasPlainQueues s t here h = h
  Reach-HasPlainQueues s t (next {t = u} reach step) h =
      Step-HasPlainQueues c fifo u t step (Reach-HasPlainQueues s u reach h)

  -- A schedule of rounds is a sequence of steps that submits nothing.
  rounds-Reach :
      (idle : IdleThreshold) (schedule : List (ℕ × Clock)) (s t u : System c)
      → Reach c fifo s t
      → rounds c idle schedule t ≡ some u
      → Reach c fifo s u × (u.submitted ≡ t.submitted)
  unfolding rounds
  rounds-Reach idle [] s t u reach e =
      let same : t ≡ u = ground arith in
      (subst (Reach c fifo s) same reach, ap (λ (v : System c). v.submitted) (sym same))
  rounds-Reach idle ((id, clock) ∷ rest) s t u reach e =
      elim (Option-cases (round c idle clock (thread_of c id t))) [
        | inl panics ↦ absurd (ground arith)
        | inr (r, done) ↦
            rounds-Reach idle rest s (after_round c id r t) u
              (next reach (works id idle clock r done refl)) (ground arith)
      ]

  -- A worker's own state that does not keep it from the jobs that are left: it was not told to stop,
  -- and it has no clock.
  abbrev pub AllWork : List ℕ → System c → Type 0
  AllWork ws t = (id : ℕ) → count id ws ≡ 1 → ((t.own id).stat ≡ 0) × ((t.own id).since ≡ none)

  -- Over channels that keep their documented order, let a pool be used in any way: calls that
  -- submit jobs to a queue with room, rounds of its workers, messages that end some of them,
  -- changes of its workers, its status and its settings, in any order, from a system whose jobs are
  -- accounted for and whose queues hold no chained message. Let it then be closing or at rest, and
  -- let workers that were not told to stop and have no clock work by a schedule, with at least two
  -- rounds for each message left and one more for each of them. Then no round panics, both queues
  -- are empty at the end, and each job has been executed exactly as often as it was ever submitted.
  pub closed_pool_finishes :
      (idle : IdleThreshold) (schedule : List (ℕ × Clock)) (ws : List ℕ) (s t : System c)
      → Accounted c fifo s
      → HasPlainQueues c fifo s.pool
      → Reach c fifo s t
      → (t.pool.status == flag_closing || t.pool.status == flag_rest) ≡ true
      → AllWork ws t
      → Among c fifo ws schedule
      → 2 * left_in c fifo t + length ws ≤ length schedule
      → (u : System c) × (rounds c idle schedule t ≡ some u)
        × (contents u.pool.queues.norm_state ≡ [])
        × (contents u.pool.queues.pri_state ≡ [])
        × ((i : ℕ) → count i u.executed ≡ count i t.submitted)
  closed_pool_finishes idle schedule ws s t start plain reach leaving serves among enough =
      let kept = Reach-HasPlainQueues s t reach plain in
      let all : AllDrain c fifo ws t = λ id there. record {
        leaving = leaving;
        unmarked = (serves id there).0;
        no_clock = (serves id there).1;
        first_plain = kept.norm_plain;
        second_plain = kept.pri_plain;
      } in
      let (u, runs, done) =
        closing_pool_empties c fifo idle schedule ws t leaving all among enough in
      let (reached, same) = rounds-Reach idle schedule s t u reach runs in
      let none_left : queued c fifo u.pool ≡ [] =
        ap₂ (λ (ms : List Message) (ns : List Message). jobs_in ms ++ jobs_in ns) done.norm_empty
          done.pri_empty in
      (
        u,
        runs,
        done.norm_empty,
        done.pri_empty,
        λ i. omega (
          arith,
          jobs_conserved c fifo s u i start reached,
          ap (λ (js : List ℕ). count i js) none_left,
          ap (λ (js : List ℕ). count i js) same,
        ),
      )

-- ===== src/System/Using.antt =====
-- src/pool.rs and src/worker.rs: the calls of a pool's user and the rounds of its workers, one
-- after another.
pub mod Returning
use thread_pool.Prelude.{
  ℕ, ◌+◌, ◌≡◌, refl, sym, ap, ap₂, subst, List, [], ◌∷◌, ◌++◌, Option, none, some, Option-cases,
  inl, inr, count, arith,
}
use thread_pool.Model.{Job}
use thread_pool.Channel.{Channel, IsFifo}
use thread_pool.Worker.{Queue}
use thread_pool.Worker.Loop.{Clock, round}
use thread_pool.Pool.{ThreadPool}
use thread_pool.Pool.Delivering.{HasRoom}
use thread_pool.Pool.Calls.{Call, perform}
use thread_pool.System.{System, Own, Reach, here, next, works, manages, thread_of, after_round}
use thread_pool.System.Effects.{queued}
use thread_pool.System.Conservation.{Accounted, jobs_conserved}
use thread_pool.System.Leading.{Leads}
use thread_pool.System.Calling.{taken, perform-Leads}

-- A call, with what the workers have for themselves after it, since it may start or stop some; or a
-- round of one worker.
pub data Use : Type 0 where
  asks : (call : Call) (own : ℕ → Own) → Use
  serves : (id : ℕ) (clock : Clock) → Use

module _ (c : Channel) where
  abbrev pub after_call : Call → (ℕ → Own) → System c → ThreadPool c → System c
  after_call call own s q = record {
    pool = q;
    own = own;
    submitted = taken c call s.pool ++ s.submitted;
    executed = s.executed;
  }

  -- A worker goes by the idle thresholds that its manager shares with it.
  unfoldable pub use_one : Use → System c → Option (System c)
  use_one (asks call own) s = elim (perform c call s.pool) [
    | none ↦ none
    | some q ↦ some (after_call call own s q)
  ]
  use_one (serves id clock) s =
      elim (round c s.pool.manager.idle_threshold clock (thread_of c id s)) [
        | none ↦ none
        | some r ↦ some (after_round c id r s)
      ]

  unfoldable pub uses : List Use → System c → Option (System c)
  uses [] s = some s
  uses (u ∷ us) s = elim (use_one u s) [ none ↦ none | some t ↦ uses us t ]

module _ (c : Channel) (fifo : IsFifo c) where
  -- Each call finds room in both queues.
  abbrev pub FindRoom : List Use → System c → Type 0
  FindRoom [] s = Unit
  FindRoom (serves id clock ∷ us) s =
      (t : System c) → use_one c (serves id clock) s ≡ some t → FindRoom us t
  FindRoom (asks call own ∷ us) s =
      ((queue : Queue) → HasRoom c fifo queue s.pool)
      × ((t : System c) → use_one c (asks call own) s ≡ some t → FindRoom us t)

  joined : {s t u : System c} → Reach c fifo s t → Reach c fifo t u → Reach c fifo s u
  joined first here = first
  joined first (next then step) = next (joined first then) step

  call-Reach :
      (call : Call) (own : ℕ → Own) (s : System c) (q : ThreadPool c)
      → Leads c fifo s (taken c call s.pool) q
      → Reach c fifo s (after_call c call own s q)
  call-Reach call own s q leads =
      let same : after_call c call own s q ≡ record leads.after { pool = q; own = own } =
        ap₂
          (λ (js : List Job) (ks : List Job). record {
            pool = q;
            own = own;
            submitted = js;
            executed = ks;
          })
          (sym leads.submitted) (sym leads.executed) in
      next leads.reached (manages q own (ap (λ (p : ThreadPool c). p.queues) (sym leads.pool)) same)

  pub use-Reach :
      (u : Use) (us : List Use) (s t : System c)
      → FindRoom (u ∷ us) s
      → use_one c u s ≡ some t
      → Reach c fifo s t × FindRoom us t
  unfolding use_one
  use-Reach (asks call own) us s t room e = elim (Option-cases (perform c call s.pool)) [
    | inl waits ↦ absurd (ground (arith, waits))
    | inr (q, done) ↦
        let there : after_call c call own s q ≡ t = ground (arith, done) in
        (
          subst (Reach c fifo s) there
              (call-Reach call own s q (perform-Leads c fifo call s q room.0 done).0),
          room.1 t e,
        )
  ]
  use-Reach (serves id clock) us s t room e =
      let idle = s.pool.manager.idle_threshold in
      elim (Option-cases (round c idle clock (thread_of c id s))) [
        | inl panics ↦ absurd (ground (arith, panics))
        | inr (r, done) ↦
            let there : after_round c id r s ≡ t = ground (arith, done) in
            (subst (Reach c fifo s) there (next here (works id idle clock r done refl)), room t e)
      ]

  pub uses-Reach :
      (us : List Use) (s t : System c) → FindRoom us s → uses c us s ≡ some t → Reach c fifo s t
  unfolding uses
  uses-Reach [] s t room e = let there : s ≡ t = ground arith in subst (Reach c fifo s) there here
  uses-Reach (u ∷ us) s t room e = elim (Option-cases (use_one c u s)) [
    | inl fails ↦ absurd (ground (arith, fails))
    | inr (m, first) ↦
        let (reach, rest) = use-Reach u us s m room first in
        joined reach (uses-Reach us m t rest (ground (arith, first)))
  ]

  -- Over channels that keep their documented order, let the calls of a pool's user and the rounds
  -- of its workers follow each other in any order, and let all of them return; each call may be any
  -- of `Call`, and finds room in both queues. If the jobs are accounted for at first, they are at
  -- the end: each job has been executed as often as a call took it in, but for the times that it
  -- still waits in a queue.
  pub uses_conserve :
      (us : List Use) (s t : System c) (i : ℕ)
      → Accounted c fifo s
      → FindRoom us s
      → uses c us s ≡ some t
      → count i t.submitted ≡ count i (queued c fifo t.pool) + count i t.executed
  uses_conserve us s t i start room e = jobs_conserved c fifo s t i start (uses-Reach us s t room e)

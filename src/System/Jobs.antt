-- ===== src/System/Jobs.antt =====
-- The jobs of the messages in a channel, counted, and what a worker takes of them.
use thread_pool.Prelude.{ℕ, ◌+◌, ◌≡◌, ap, ◌∙◌, inl, inr, List, [], ◌∷◌, ◌++◌, Option, count, arith}
use thread_pool.Model.{Job, Message, single_job, chained_jobs, terminate}
use thread_pool.Channel.{Channel, IsFifo}
use thread_pool.Worker.Fetch.{unpack_message}
use thread_pool.Worker.Queues.{WorkStatus}
use thread_pool.Worker.Serving.{Takes, Unpacks}
use thread_pool.Worker.Loop.{Thread, ran_jobs}
use thread_pool.Worker.Exit.{Took}

-- The jobs that messages hold.
abbrev pub jobs_in : List Message → List Job
jobs_in [] = []
jobs_in (single_job job ∷ ms) = job ∷ jobs_in ms
jobs_in (chained_jobs jobs ∷ ms) = jobs ++ jobs_in ms
jobs_in (terminate ids ∷ ms) = jobs_in ms

pub count-append : (i : ℕ) (js ks : List Job) → count i (js ++ ks) ≡ count i js + count i ks
count-append i [] ks = omega arith
count-append i (j ∷ js) ks = omega (arith, count-append i js ks)

pub count-jobs_in :
    (i : ℕ) (ms : List Message) (m : Message)
    → count i (jobs_in (ms ++ m ∷ [])) ≡ count i (jobs_in ms) + count i (jobs_in (m ∷ []))
count-jobs_in i [] m = omega arith
count-jobs_in i (single_job job ∷ ms) m = omega (arith, count-jobs_in i ms m)
count-jobs_in i (chained_jobs jobs ∷ ms) m = omega (
  arith,
  count-append i jobs (jobs_in (ms ++ m ∷ [])),
  count-append i jobs (jobs_in ms),
  count-jobs_in i ms m,
)
count-jobs_in i (terminate ids ∷ ms) m = omega (arith, count-jobs_in i ms m)

-- The job of a message that was taken, and the others.
count-unpacked :
    (i : ℕ) (m : Message) (ms : List Message) (w : WorkStatus)
    → Unpacks m w
    → count i (jobs_in (m ∷ ms)) ≡ count i (ran_jobs w.job) + count i (jobs_in ms)
unfolding unpack_message
count-unpacked i (single_job job) ms w u = ground (arith, u.2)
count-unpacked i (chained_jobs jobs) ms w u = absurd (ground (arith, u.2))
count-unpacked i (terminate ids) ms w u = ground (arith, u.2)

module _ (c : Channel) (fifo : IsFifo c) where
  open fifo use {contents}

  abbrev pub jobs_at : c.State → List Job
  jobs_at s = jobs_in (contents s)

  -- What a message that was taken leaves.
  count-taken :
      (i : ℕ) (v u : c.State) (w : WorkStatus)
      → Takes c fifo v u w
      → count i (jobs_at v) ≡ count i (ran_jobs w.job) + count i (jobs_at u)
  count-taken i v u w (m, e, unpacks) =
      ap (λ (l : List Message). count i (jobs_in l)) e ∙ count-unpacked i m (contents u) w unpacks

  pub count-Took :
      (i : ℕ) (t u : Thread c) (w : WorkStatus)
      → Took c fifo t u w
      → count i (jobs_at t.first ++ jobs_at t.second)
        ≡ count i (ran_jobs w.job) + count i (jobs_at u.first ++ jobs_at u.second)
  count-Took i t u w took =
      let before = count-append i (jobs_at t.first) (jobs_at t.second) in
      let after = count-append i (jobs_at u.first) (jobs_at u.second) in
      elim took [
        | inl (takes, same) ↦ omega (
          arith,
          before,
          after,
          count-taken i t.first u.first w takes,
          ap (λ (l : List Message). count i (jobs_in l)) same,
        )
        | inr (inl (takes, same)) ↦ omega (
          arith,
          before,
          after,
          count-taken i t.second u.second w takes,
          ap (λ (l : List Message). count i (jobs_in l)) same,
        )
        | inr (inr (idle, first, second)) ↦ omega (
          arith,
          before,
          after,
          ap (λ (o : Option Job). count i (ran_jobs o)) idle,
          ap (λ (l : List Message). count i (jobs_in l)) first,
          ap (λ (l : List Message). count i (jobs_in l)) second,
        )
      ]

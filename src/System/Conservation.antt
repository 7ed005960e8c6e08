-- ===== src/System/Conservation.antt =====
-- No job is lost and none is run twice, over any sequence of steps.
use thread_pool.Prelude.{ℕ, ◌+◌, ◌≡◌, refl, ap, List, count, arith}
use thread_pool.Model.{Job}
use thread_pool.Channel.{Channel, IsFifo}
use thread_pool.System.{System, Reach, here, next}
use thread_pool.System.Effects.{Effect, accepts, performs, idles, queued, Step-Effect}

module _ (c : Channel) (fifo : IsFifo c) where
  -- Every job has been submitted as often as it stands in the queues and has been executed.
  abbrev pub Accounted : System c → Type 0
  Accounted s = (i : ℕ) → count i s.submitted ≡ count i (queued c fifo s.pool) + count i s.executed

  -- What a run brings in is in the queues, or executed, on top of what was there.
  abbrev pub Balanced : System c → System c → Type 0
  Balanced s t =
      (i : ℕ)
      → count i t.submitted + (count i (queued c fifo s.pool) + count i s.executed)
        ≡ count i s.submitted + (count i (queued c fifo t.pool) + count i t.executed)

  Effect-Balanced :
      (s : System c) {t u : System c} → Effect c fifo t u → Balanced s t → Balanced s u
  Effect-Balanced s (accepts f sub ran moved) h i = omega (
    arith,
    h i,
    moved i,
    ap (λ (l : List Job). count i l) sub,
    ap (λ (l : List Job). count i l) ran,
  )
  Effect-Balanced s (performs f sub ran moved) h i = omega (
    arith,
    h i,
    moved i,
    ap (λ (l : List Job). count i l) sub,
    ap (λ (l : List Job). count i l) ran,
  )
  Effect-Balanced s (idles sub ran moved) h i = omega (
    arith,
    h i,
    moved i,
    ap (λ (l : List Job). count i l) sub,
    ap (λ (l : List Job). count i l) ran,
  )

  pub Reach-Balanced : (s t : System c) → Reach c fifo s t → Balanced s t
  Reach-Balanced s t here i = refl
  Reach-Balanced s t (next {t = u} reach step) i =
      Effect-Balanced s (Step-Effect c fifo step) (Reach-Balanced s u reach) i

  -- Over channels that keep their documented order, and however these interleave: the rounds of a
  -- pool's workers, the calls that submit jobs to a queue with room, the messages that end workers,
  -- and the changes of the workers, the status and the settings. If the jobs are accounted for at
  -- first, they always are. Each job has been executed as often as it was submitted, but for the
  -- times that it still waits in a queue.
  pub jobs_conserved :
      (s t : System c) (i : ℕ)
      → Accounted s
      → Reach c fifo s t
      → count i t.submitted ≡ count i (queued c fifo t.pool) + count i t.executed
  jobs_conserved s t i start reach = omega (arith, start i, Reach-Balanced s t reach i)

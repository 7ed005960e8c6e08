-- ===== src/System/Refinement.antt =====
-- The system refines a box of jobs that knows neither queues nor workers, nor an order.
use mathlib.Core.Quot
use mathlib.Core.Quot.{Quot}
use thread_pool.Prelude.{ℕ, ◌≡◌, refl, ap, List, ◌∷◌, count}
use thread_pool.Model.{Job}
use thread_pool.Channel.{Channel, IsFifo}
use thread_pool.System.{System, Reach, here, next}
use thread_pool.System.Effects.{Effect, accepts, performs, idles, queued, Step-Effect}

-- Jobs without their order.
abbrev pub Jobs : Type 0
Jobs = Quot λ (js : List Job) (ks : List Job). (i : ℕ) → count i js ≡ count i ks

abbrev pub jobs_of : List Job → Jobs
jobs_of = Quot.mk

-- What was handed in, what still waits, and what is done.
pub record Box : Type 0 where
  pub handed_in : Jobs
  pub waiting : Jobs
  pub done : Jobs

-- What a client may rely on: a job is handed in and waits; or one that waits is done, and waits no
-- more; or nothing is to be seen.
pub data Move (a b : Box) : Type 0 where
  take_in :
      (f : Job) (is js : List Job)
      → a.handed_in ≡ jobs_of is
      → b.handed_in ≡ jobs_of (f ∷ is)
      → a.waiting ≡ jobs_of js
      → b.waiting ≡ jobs_of (f ∷ js)
      → b.done ≡ a.done
      → Move a b
  carry_out :
      (f : Job) (js ks : List Job)
      → b.handed_in ≡ a.handed_in
      → a.waiting ≡ jobs_of (f ∷ js)
      → b.waiting ≡ jobs_of js
      → a.done ≡ jobs_of ks
      → b.done ≡ jobs_of (f ∷ ks)
      → Move a b
  stay : b.handed_in ≡ a.handed_in → b.waiting ≡ a.waiting → b.done ≡ a.done → Move a b

pub data Moves (a : Box) : Box → Type 0 where
  stop : Moves a a
  more : {b d : Box} → Moves a b → Move b d → Moves a d

module _ (c : Channel) (fifo : IsFifo c) where
  -- What of a system is to be seen.
  abbrev pub box_of : System c → Box
  box_of s = record {
    handed_in = jobs_of s.submitted;
    waiting = jobs_of (queued c fifo s.pool);
    done = jobs_of s.executed;
  }

  Effect-Move : {s t : System c} → Effect c fifo s t → Move (box_of s) (box_of t)
  Effect-Move {s} {t} (accepts f sub ran moved) =
      take_in f s.submitted (queued c fifo s.pool) refl (ap jobs_of sub) refl (Quot.sound moved)
        (ap jobs_of ran)
  Effect-Move {s} {t} (performs f sub ran moved) =
      carry_out f (queued c fifo t.pool) s.executed (ap jobs_of sub) (Quot.sound moved) refl refl
        (ap jobs_of ran)
  Effect-Move (idles sub ran moved) = stay (ap jobs_of sub) (Quot.sound moved) (ap jobs_of ran)

  -- Over channels that keep their documented order, every run of the system is a run of the box:
  -- each of its moves takes in a job that is handed in at that move, and waits from then on, or
  -- carries out one that waits, and waits no more, or shows nothing. A call takes part in a run
  -- only when its queue has room; the pool may have any settings.
  pub system_refines : (s t : System c) → Reach c fifo s t → Moves (box_of s) (box_of t)
  system_refines s t here = stop
  system_refines s t (next {t = u} reach step) =
      more (system_refines s u reach) (Effect-Move (Step-Effect c fifo step))

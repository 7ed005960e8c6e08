-- ===== src/Worker/Fairness.antt =====
-- src/worker.rs, `check_queues` over many rounds: the second queue is not starved while it is full.
use thread_pool.Prelude.{
  ℕ, ◌-◌, ◌≤◌, ◌<◌, ◌≡◌, ◌≢◌, ◌⊎◌, inl, inr, Bool, true, not, ◌&&◌, List, [], ◌∷◌, none, some,
  if◌then◌else◌, ltb, ◌==◌, arith, Bool-cases, Option-cases, length, All,
}
use thread_pool.Model.{Message, single_job, chained_jobs, terminate}
use thread_pool.Channel.{Channel, IsFifo}
use thread_pool.Worker.Fetch.{fetch_work, fetch_work_some, fetch_work_none, unpack_message}
use thread_pool.Worker.Queues.{Checked, check_second, check_queues, count_first}
use thread_pool.Worker.Serving.{
  List-cases, Takes, from_first, from_second, nothing, check_queues-Serves,
}

-- The oldest message, if there is one, is not the kind that `unpack_message` cannot take.
abbrev pub Unpackable : List Message → Type 0
Unpackable [] = Unit
Unpackable (single_job job ∷ ms) = Unit
Unpackable (chained_jobs jobs ∷ ms) = ⊥
Unpackable (terminate ids ∷ ms) = Unit

unpacks : (m : Message) (ms : List Message) → Unpackable (m ∷ ms) → unpack_message m ≢ none
unfolding unpack_message
unpacks (single_job job) ms u e = cc
unpacks (chained_jobs jobs) ms u e = u
unpacks (terminate ids) ms u e = cc

module _ (c : Channel) (fifo : IsFifo c) where
  open fifo use {contents}

  check_second_returns :
      (count : ℕ) (first second : c.State) (wait : Bool)
      → Unpackable (contents second)
      → check_second c count first second wait ≢ none
  unfolding check_second
  check_second_returns count first second wait u h = elim (List-cases (contents second)) [
    | inl e ↦ ground (arith, fetch_work_none c fifo (c.is_full first && not wait) second e)
    | inr (m, ms, e) ↦
        let plain : Unpackable (m ∷ ms) = rw e at u in
        ground (
          arith,
          fetch_work_some c fifo (c.is_full first && not wait) second m ms e,
          unpacks m ms plain,
        )
  ]

  -- Over channels that keep their documented order, and if the oldest message of neither queue is
  -- a chained one, a check of the queues does not panic.
  pub check_queues_returns :
      (count : ℕ) (first second : c.State) (pri_wait norm_wait : Bool)
      → Unpackable (contents first)
      → Unpackable (contents second)
      → check_queues c count first second pri_wait norm_wait ≢ none
  unfolding check_queues
  check_queues_returns count first second pri_wait norm_wait u v h =
      elim (Bool-cases (ltb count 255)) [
        | inl looks ↦ elim (List-cases (contents first)) [
          | inl e ↦
              let can_skip = c.is_full second && not pri_wait in
              ground (
                arith,
                fetch_work_none c fifo can_skip first e,
                check_second_returns count (fetch_work c can_skip first).1 second norm_wait v,
              )
          | inr (m, ms, e) ↦
              let plain : Unpackable (m ∷ ms) = rw e at u in
              ground (
                arith,
                fetch_work_some c fifo (c.is_full second && not pri_wait) first m ms e,
                unpacks m ms plain,
              )
        ]
        | inr skips ↦ ground (arith, check_second_returns 0 first second norm_wait v)
      ]

-- What a worker finds at the start of a round: its second queue is full, and not of capacity 0.
pub record Pressed (c : Channel) (fifo : IsFifo c) (turn : c.State × c.State) : Type 0 where
  pub full : c.is_full turn.1 ≡ true
  pub waiting : fifo.contents turn.1 ≢ []
  pub first_plain : Unpackable (fifo.contents turn.0)
  pub second_plain : Unpackable (fifo.contents turn.1)

-- In one of the rounds the oldest message of the second queue is taken. Between two rounds both
-- channels may change at will; the worker carries its counter over.
abbrev pub ServedWithin :
    (c : Channel) → IsFifo c → Bool → Bool → ℕ → List (c.State × c.State) → Type 0
ServedWithin c fifo pri_wait norm_wait count [] = ⊥
ServedWithin c fifo pri_wait norm_wait count (turn ∷ turns) =
    (k : Checked c) × (check_queues c count turn.0 turn.1 pri_wait norm_wait ≡ some k)
    × (Takes c fifo turn.1 k.second k.work
        ⊎ ServedWithin c fifo pri_wait norm_wait k.pri_work_count turns)

-- How many rounds the first queue can still be preferred.
abbrev patience : ℕ → ℕ
patience count = if count == 255 then 0 else 5 - count

served_by_patience :
    (c : Channel) (fifo : IsFifo c) (pri_wait norm_wait : Bool) (count : ℕ)
    (turns : List (c.State × c.State))
    → (count ≤ 4) ⊎ (count ≡ 255)
    → All (Pressed c fifo) turns
    → patience count < length turns
    → ServedWithin c fifo pri_wait norm_wait count turns
served_by_patience c fifo pri_wait norm_wait count [] range ps lt = absurd (omega arith)
served_by_patience c fifo pri_wait norm_wait count ((f, s) ∷ turns) range ps lt =
    elim (Option-cases (check_queues c count f s pri_wait norm_wait)) [
      | inl panics ↦ absurd (
          check_queues_returns c fifo count f s pri_wait norm_wait ps.0.first_plain
            ps.0.second_plain panics)
      | inr (k, e) ↦ (
        k,
        e,
        elim (check_queues-Serves c fifo count f s pri_wait norm_wait k e) [
          | from_second skip same takes counter ↦ inl takes
          | nothing skip gone same still code job counter ↦ absurd (ps.0.waiting gone)
          | from_first below takes same counter ↦
              let counter' : k.pri_work_count ≡ count_first count true = rw ps.0.full at counter in
              inr (
                served_by_patience c fifo pri_wait norm_wait k.pri_work_count turns (ground arith)
                  ps.1 (ground arith))
        ],
      )
    ]

-- Over channels that keep their documented order, let a worker find its second queue full in six
-- rounds in a row, and let no oldest message be a chained one. Then it takes the second queue's
-- oldest message in one of these rounds, however full the first queue is kept, whatever its waits
-- are, and wherever in its range (at most 4, or 255) the counter stands.
pub second_queue_served :
    (c : Channel) (fifo : IsFifo c) (pri_wait norm_wait : Bool) (count : ℕ)
    (turns : List (c.State × c.State))
    → (count ≤ 4) ⊎ (count ≡ 255)
    → All (Pressed c fifo) turns
    → 6 ≤ length turns
    → ServedWithin c fifo pri_wait norm_wait count turns
second_queue_served c fifo pri_wait norm_wait count turns range ps h =
    served_by_patience c fifo pri_wait norm_wait count turns range ps (ground arith)

-- Over channels that keep their documented order: from a counter in its range (at most 4, or 255),
-- a check of the queues that returns leaves a counter in that range.
pub check_queues_range :
    (c : Channel) (fifo : IsFifo c) (pri_wait norm_wait : Bool) (count : ℕ) (f s : c.State)
    (k : Checked c)
    → (count ≤ 4) ⊎ (count ≡ 255)
    → check_queues c count f s pri_wait norm_wait ≡ some k
    → (k.pri_work_count ≤ 4) ⊎ (k.pri_work_count ≡ 255)
check_queues_range c fifo pri_wait norm_wait count f s k range e =
    elim (check_queues-Serves c fifo count f s pri_wait norm_wait k e) [
      | from_second skip same takes counter ↦ inl (omega arith)
      | nothing skip gone same still code job counter ↦ ground arith
      | from_first below takes same counter ↦ ground arith
    ]

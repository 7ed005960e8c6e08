-- ===== src/Worker/Serving.antt =====
-- src/worker.rs, `check_queues` over channels that keep their documented order: what it takes.
use thread_pool.Prelude.{
  ℕ, ◌<◌, ◌≡◌, refl, sym, ap, ◌∙◌, ◌⊎◌, inl, inr, Bool, not, ◌&&◌, List, [], ◌∷◌, Option, none,
  some, if◌then◌else◌, ltb, arith, Bool-cases, Option-cases,
}
use thread_pool.Model.{Message}
use thread_pool.Channel.{Channel, IsFifo}
use thread_pool.Worker.Fetch.{fetch_work, fetch_work_some, fetch_work_none, unpack_message}
use thread_pool.Worker.Queues.{WorkStatus, Checked, check_second, check_queues, count_first}

pub List-cases {ℓ} : {A : Type ℓ} (l : List A) → (l ≡ []) ⊎ ((x : A) × (xs : List A) × (l ≡ x ∷ xs))
List-cases [] = inl refl
List-cases (x ∷ xs) = inr (x, xs, refl)

-- The work that a message stands for.
abbrev pub Unpacks : Message → WorkStatus → Type 0
Unpacks m w = (w.code ≡ 0) × (target : Option (List ℕ)) × (unpack_message m ≡ some (w.job, target))

-- The oldest message of a channel was taken and unpacked.
abbrev pub Takes : (c : Channel) → IsFifo c → c.State → c.State → WorkStatus → Type 0
Takes c fifo s t w = (m : Message) × (fifo.contents s ≡ m ∷ fifo.contents t) × Unpacks m w

-- What a check of the two queues does. It serves the first queue if that holds anything, unless the
-- counter stands at 255; otherwise the second. It takes nothing only if the queues that it looks
-- at are empty. The counter after each is written out.
pub data Serves (c : Channel) (fifo : IsFifo c) (count : ℕ) (first second : c.State) (k : Checked c)
    : Type 0 where
  from_first :
      count < 255
      → Takes c fifo first k.first k.work
      → fifo.contents k.second ≡ fifo.contents second
      → k.pri_work_count ≡ count_first count (c.is_full second)
      → Serves c fifo count first second k
  from_second :
      (count < 255 → fifo.contents first ≡ [])
      → fifo.contents k.first ≡ fifo.contents first
      → Takes c fifo second k.second k.work
      → k.pri_work_count ≡ 0
      → Serves c fifo count first second k
  nothing :
      (count < 255 → fifo.contents first ≡ [])
      → fifo.contents second ≡ []
      → fifo.contents k.first ≡ fifo.contents first
      → fifo.contents k.second ≡ []
      → k.work.code ≡ 0
      → k.work.job ≡ none
      → k.pri_work_count ≡ (if ltb count 255 then count else 0)
      → Serves c fifo count first second k

module _ (c : Channel) (fifo : IsFifo c) where
  open fifo use {contents}

  check_second-some :
      (count : ℕ) (first second : c.State) (wait : Bool) (k : Checked c) (m : Message)
      (ms : List Message)
      → contents second ≡ m ∷ ms
      → check_second c count first second wait ≡ some k
      → (k.first ≡ first) × Takes c fifo second k.second k.work × (k.pri_work_count ≡ 0)
  unfolding check_second
  check_second-some count first second wait k m ms e h =
      let f = fetch_work_some c fifo (c.is_full first && not wait) second m ms e in
      elim (Option-cases (unpack_message m)) [
        | inl fails ↦ absurd (ground (arith, f))
        | inr ((job, target), unpacks) ↦ (
          ground (arith, f),
          (m, ground (arith, f), (ground (arith, f), target, ground (arith, f))),
          ground (arith, f),
        )
      ]

  check_second-none :
      (count : ℕ) (first second : c.State) (wait : Bool) (k : Checked c)
      → contents second ≡ []
      → check_second c count first second wait ≡ some k
      → (k.first ≡ first)
        × (contents k.second ≡ [])
        × (k.work.code ≡ 0)
        × (k.work.job ≡ none)
        × (k.pri_work_count ≡ count)
  unfolding check_second
  check_second-none count first second wait k e h =
      let f = fetch_work_none c fifo (c.is_full first && not wait) second e in ground (arith, f)

  -- The second queue's turn, with the first queue empty or skipped.
  check_second-Serves :
      (count now : ℕ) (first at second : c.State) (wait : Bool) (k : Checked c)
      → (count < 255 → contents first ≡ [])
      → contents at ≡ contents first
      → now ≡ (if ltb count 255 then count else 0)
      → check_second c now at second wait ≡ some k
      → Serves c fifo count first second k
  check_second-Serves count now first at second wait k skip same counter h =
      elim (List-cases (contents second)) [
        | inl e ↦
            let n = check_second-none now at second wait k e h in
            nothing skip e (ap contents n.0 ∙ same) n.1 n.2 n.3 (n.4 ∙ counter)
        | inr (m, ms, e) ↦
            let n = check_second-some now at second wait k m ms e h in
            from_second skip (ap contents n.0 ∙ same) n.1 n.2
      ]

  -- Over channels that keep their documented order, every check of the queues that does not panic
  -- serves them in the way of `Serves`: the first queue if that holds anything, unless the counter
  -- stands at 255; otherwise the second; and nothing is taken only if the queues that are looked
  -- at are empty.
  pub check_queues-Serves :
      (count : ℕ) (first second : c.State) (pri_wait norm_wait : Bool) (k : Checked c)
      → check_queues c count first second pri_wait norm_wait ≡ some k
      → Serves c fifo count first second k
  unfolding check_queues
  check_queues-Serves count first second pri_wait norm_wait k h =
      elim (Bool-cases (ltb count 255)) [
        | inl looks ↦ elim (List-cases (contents first)) [
          | inl e ↦
              let f = fetch_work_none c fifo (c.is_full second && not pri_wait) first e in
              check_second-Serves count count first
                (fetch_work c (c.is_full second && not pri_wait) first).1 second norm_wait k
                (λ _. e) (f.1 ∙ sym e) (ground arith) (ground (arith, f))
          | inr (m, ms, e) ↦
              let f = fetch_work_some c fifo (c.is_full second && not pri_wait) first m ms e in
              elim (Option-cases (unpack_message m)) [
                | inl fails ↦ absurd (ground (arith, f))
                | inr ((job, target), unpacks) ↦
                    from_first (ground arith)
                      (m, ground (arith, f), (ground (arith, f), target, ground (arith, f)))
                      (ground (arith, f)) (ground (arith, f))
              ]
        ]
        | inr skips ↦
            check_second-Serves count 0 first first second norm_wait k (λ lt. absurd (ground arith))
              refl (ground arith) (ground arith)
      ]

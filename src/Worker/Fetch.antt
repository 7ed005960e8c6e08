-- ===== src/Worker/Fetch.antt =====
-- src/worker.rs, `fetch_work` and `unpack_message`.
use thread_pool.Prelude.{
  ℕ, zero, suc, ◌+◌, ◌<◌, ◌≡◌, Bool, true, false, List, [], ◌∷◌, Option, none, some, ◌||◌, Result,
  ok, err, Result-cases, Bool-cases, inl, inr, if◌then◌else◌, ltb, arith,
}
use thread_pool.Model.{Message, single_job, chained_jobs, terminate, Job}
use thread_pool.Channel.{Channel, TryRecvError, IsFifo}

abbrev pub long_parking_rounds : ℕ
long_parking_rounds = 8

abbrev pub short_parking_rounds : ℕ
short_parking_rounds = 2

pub data RecvTimeoutError : Type 0 where
  timeout disconnected : RecvTimeoutError

abbrev pub rounds_of : Bool → ℕ
rounds_of can_skip = if can_skip then short_parking_rounds else long_parking_rounds

module _ (c : Channel) where
  -- The loop, with `wait` as it enters a round. `none` means that the fuel ran out.
  unfoldable pub fetch_loop :
      ℕ → ℕ → ℕ → Bool → c.State → Option (Result Message RecvTimeoutError × c.State)
  fetch_loop zero wait rounds can_skip s = none
  fetch_loop (suc fuel) wait rounds can_skip s =
      let (r, t) = c.try_recv s in
      let waited = wait + 1 in
      elim r [
        | ok work ↦ some (ok work, t)
        | err e ↦ elim e [
          | TryRecvError.disconnected ↦ some (err disconnected, t)
          | TryRecvError.empty ↦
              if can_skip then some (err timeout, t) else elim (ltb rounds waited) [
                | true ↦ some (err timeout, t)
                | false ↦ fetch_loop fuel waited rounds can_skip t
              ]
        ]
      ]

  abbrev fetched :
      c.State
      → Option (Result Message RecvTimeoutError × c.State)
      → Result Message RecvTimeoutError × c.State
  fetched s none = (err timeout, s)
  fetched s (some r) = r

  -- One round more than `rounds` is enough: `fetch_work_returns`.
  unfoldable pub fetch_work : Bool → c.State → Result Message RecvTimeoutError × c.State
  unfolding fetch_loop
  fetch_work can_skip s =
      fetched s (fetch_loop (rounds_of can_skip + 1) 0 (rounds_of can_skip) can_skip s)

-- `none` is the panic of `unreachable!`.
unfoldable pub unpack_message : Message → Option (Option Job × Option (List ℕ))
unpack_message (single_job job) = some (some job, none)
unpack_message (chained_jobs jobs) = none
unpack_message (terminate target) = some (none, some target)

module _ (c : Channel) where
  -- From any round on, the rounds that are left are enough fuel, whatever the channel answers.
  fetch_loop_ends :
      (fuel wait rounds : ℕ) (can_skip : Bool) (s : c.State)
      → rounds < fuel + wait
      → 0 < fuel
      → (r : Result Message RecvTimeoutError × c.State) × (fetch_loop c fuel wait rounds can_skip s
          ≡ some r)
  unfolding fetch_loop
  fetch_loop_ends zero wait rounds can_skip s h p = absurd (omega arith)
  fetch_loop_ends (suc fuel) wait rounds can_skip s h p =
      let t = (c.try_recv s).1 in
      elim (Result-cases (c.try_recv s).0) [
        | inl (m, e) ↦ ((ok m, t), ground arith)
        | inr (TryRecvError.disconnected, e) ↦ ((err disconnected, t), ground arith)
        | inr (TryRecvError.empty, e) ↦ elim (Bool-cases (can_skip || ltb rounds (wait + 1))) [
          | inl over ↦ ((err timeout, t), ground arith)
          | inr under ↦
              let left : rounds < fuel + (wait + 1) = omega arith in
              let more : 0 < fuel = ground arith in
              let r = fetch_loop_ends fuel (wait + 1) rounds can_skip t left more in
              (r.0, ground (arith, r.1))
        ]
      ]

  -- One more round of fuel than the constant is enough: `fetch_work` returns what its loop returns,
  -- whatever the channel answers.
  pub fetch_work_returns :
      (can_skip : Bool) (s : c.State)
      → fetch_loop c (rounds_of can_skip + 1) 0 (rounds_of can_skip) can_skip s
        ≡ some (fetch_work c can_skip s)
  unfolding fetch_work
  fetch_work_returns can_skip s =
      let r =
        fetch_loop_ends (rounds_of can_skip + 1) 0 (rounds_of can_skip) can_skip s (omega arith)
          (ground arith) in
      ground (arith, r.1)

module _ (c : Channel) (fifo : IsFifo c) where
  open fifo use {contents}

  fetch_loop_waits :
      (fuel wait rounds : ℕ) (can_skip : Bool) (s : c.State)
      → contents s ≡ []
      → rounds < fuel + wait
      → 0 < fuel
      → (t : c.State) × (fetch_loop c fuel wait rounds can_skip s ≡ some (err timeout, t))
        × (contents t ≡ [])
  unfolding fetch_loop
  fetch_loop_waits zero wait rounds can_skip s none_left h p = absurd (omega arith)
  fetch_loop_waits (suc fuel) wait rounds can_skip s none_left h p =
      let t = (c.try_recv s).1 in
      let (e, still) = fifo.recv_none s none_left in
      elim (Bool-cases (can_skip || ltb rounds (wait + 1))) [
        | inl over ↦ (t, ground arith, still)
        | inr under ↦
            let left : rounds < fuel + (wait + 1) = omega arith in
            let more : 0 < fuel = ground arith in
            let r = fetch_loop_waits fuel (wait + 1) rounds can_skip t still left more in
            (r.0, ground (arith, r.1), r.2)
      ]

  -- A fetch takes the oldest message, at its first poll.
  pub fetch_work_some :
      (can_skip : Bool) (s : c.State) (m : Message) (ms : List Message)
      → contents s ≡ m ∷ ms
      → ((fetch_work c can_skip s).0 ≡ ok m) × (contents (fetch_work c can_skip s).1 ≡ ms)
  unfolding fetch_work fetch_loop
  fetch_work_some true s m ms e = ground (arith, fifo.recv_some s m ms e)
  fetch_work_some false s m ms e = ground (arith, fifo.recv_some s m ms e)

  -- A fetch from an empty channel times out and leaves it empty.
  pub fetch_work_none :
      (can_skip : Bool) (s : c.State)
      → contents s ≡ []
      → ((fetch_work c can_skip s).0 ≡ err timeout) × (contents (fetch_work c can_skip s).1 ≡ [])
  unfolding fetch_work
  fetch_work_none can_skip s e =
      let r =
        fetch_loop_waits (rounds_of can_skip + 1) 0 (rounds_of can_skip) can_skip s e (omega arith)
          (ground arith) in
      ground (arith, r)

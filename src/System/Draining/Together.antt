-- ===== src/System/Draining/Together.antt =====
-- src/worker.rs, the main loops of all the workers of a closing pool, in any order of their rounds.
use thread_pool.Prelude.{
  ℕ, ◌+◌, ◌*◌, ◌≤◌, ◌<◌, ◌≡◌, refl, ap, ap₂, inl, inr, Bool, true, ◌||◌, List, [], ◌∷◌, ◌++◌,
  Option, none, some, Bool-cases, if◌then◌else◌, ◌==◌, ltb, count, length, arith,
}
use thread_pool.Model.{Message, flag_closing, flag_rest}
use thread_pool.Channel.{Channel, IsFifo}
use thread_pool.Idle.{IdleThreshold}
use thread_pool.Worker.Loop.{Clock, Thread, quits, Round, round}
use thread_pool.System.{Own, System, thread_of, own_of, set_own, after_round}
use thread_pool.System.Jobs.{jobs_in, count-append}
use thread_pool.System.Effects.{queued}
use thread_pool.System.Draining.Rounds.{
  Drains, waiting, empty_len, Advances, round-Advances, no_messages,
}

-- The counter stands at its mark, so that the next round looks at the second queue alone.
abbrev skips : Own → ℕ
skips o = if ltb o.pri_work_count 255 then 0 else 1

abbrev all_skips : List ℕ → (ℕ → Own) → ℕ
all_skips [] own = 0
all_skips (id ∷ rest) own = skips (own id) + all_skips rest own

skips_le : (ws : List ℕ) (own : ℕ → Own) → all_skips ws own ≤ length ws
skips_le [] own = omega arith
skips_le (id ∷ ws) own = ground (arith, skips_le ws own)

module _ (c : Channel) where
  -- Rounds of the workers in the order of a schedule; `none` is a panic.
  unfoldable pub rounds : IdleThreshold → List (ℕ × Clock) → System c → Option (System c)
  rounds idle [] s = some s
  rounds idle ((id, clock) ∷ rest) s = elim (round c idle clock (thread_of c id s)) [
    | none ↦ none
    | some r ↦ rounds idle rest (after_round c id r s)
  ]

  skips_absent :
      (id : ℕ) (o : Own) (ws : List ℕ) (own : ℕ → Own)
      → count id ws ≡ 0
      → all_skips ws (set_own c id o own) ≡ all_skips ws own
  skips_absent id o [] own absent = refl
  skips_absent id o (j ∷ ws) own absent =
      ground (arith, skips_absent id o ws own (ground (arith, absent)), absent)

  skips_once :
      (id : ℕ) (o : Own) (ws : List ℕ) (own : ℕ → Own)
      → count id ws ≡ 1
      → all_skips ws (set_own c id o own) + skips (own id) ≡ all_skips ws own + skips o
  skips_once id o [] own once = absurd (omega (arith, once))
  skips_once id o (j ∷ ws) own once = elim (Bool-cases (j == id)) [
    | inl same ↦
        let rest = skips_absent id o ws own (ground (arith, once, same)) in
        let here : j ≡ id = ground (arith, same) in
        let old = ap (λ (i : ℕ). skips (own i)) here in
        let changed : skips (set_own c id o own j) ≡ skips o =
          ap (λ (b : Bool). skips (if b then o else own j)) same in
        omega (arith, rest, old, changed)
    | inr differs ↦
        let rest = skips_once id o ws own (ground (arith, once, differs)) in
        let kept : skips (set_own c id o own j) ≡ skips (own j) =
          ap (λ (b : Bool). skips (if b then o else own j)) differs in
        omega (arith, rest, kept)
  ]

module _ (c : Channel) (fifo : IsFifo c) where
  open fifo use {contents}

  -- The messages in the queues of a system.
  abbrev pub left_in : System c → ℕ
  left_in s = length (contents s.pool.queues.norm_state) + length (contents s.pool.queues.pri_state)

  -- Each of the workers is one of a pool that is closing or at rest, and so on.
  abbrev pub AllDrain : List ℕ → System c → Type 0
  AllDrain ws s = (id : ℕ) → count id ws ≡ 1 → Drains c fifo (thread_of c id s)

  -- The schedule gives rounds to these workers alone.
  abbrev pub Among : List ℕ → List (ℕ × Clock) → Type 0
  Among ws [] = Unit
  Among ws ((id, clock) ∷ rest) = (count id ws ≡ 1) × Among ws rest

  abbrev total : List ℕ → System c → ℕ
  total ws s = 2 * left_in s + all_skips ws s.own

  -- One round, of one of the workers.
  round_of-Advances :
      (idle : IdleThreshold) (clock : Clock) (ws : List ℕ) (id : ℕ) (s : System c) (r : Round c)
      → count id ws ≡ 1
      → AllDrain ws s
      → Advances c fifo idle clock (thread_of c id s) r
      → AllDrain ws (after_round c id r s) × (total ws (after_round c id r s) < total ws s)
  round_of-Advances idle clock ws id s r once all a = (
    λ j there. record {
      leaving = a.drains.leaving;
      unmarked = ground (arith, a.drains.unmarked, (all j there).unmarked);
      no_clock = ground (arith, a.drains.no_clock, (all j there).no_clock);
      first_plain = a.drains.first_plain;
      second_plain = a.drains.second_plain;
    },
    omega (arith, a.less, skips_once c id (own_of c r.thread) ws s.own once),
  )

  -- With both queues empty a round runs nothing, and a worker that was not told to stop leaves.
  idle_round :
      (idle : IdleThreshold) (clock : Clock) (t : Thread c)
      → (t.status == flag_closing || t.status == flag_rest) ≡ true
      → contents t.first ≡ []
      → contents t.second ≡ []
      → round c idle clock t
        ≡ some (record { thread = record t { stat = 1 }; ran = []; next = quits })
  unfolding round
  idle_round idle clock t leaving first second =
      let first_len = empty_len c fifo t.first in
      let second_len = empty_len c fifo t.second in
      let first_zero = ap (λ (ms : List Message). length ms) first in
      let second_zero = ap (λ (ms : List Message). length ms) second in ground arith

  -- The queues of a system whose pool is closing or at rest are empty, and all that was to be done
  -- has been executed.
  pub record IsDone (before after : System c) : Type 0 where
    pub leaving : (after.pool.status == flag_closing || after.pool.status == flag_rest) ≡ true
    pub norm_empty : contents after.pool.queues.norm_state ≡ []
    pub pri_empty : contents after.pool.queues.pri_state ≡ []
    pub all_run :
        (i : ℕ)
        → count i after.executed ≡ count i before.executed + count i (queued c fifo before.pool)

  stays-IsDone :
      (idle : IdleThreshold) (schedule : List (ℕ × Clock)) (before s : System c)
      → IsDone before s
      → (t : System c) × (rounds c idle schedule s ≡ some t) × IsDone before t
  unfolding rounds
  stays-IsDone idle [] before s d = (s, refl, d)
  stays-IsDone idle ((id, clock) ∷ rest) before s d =
      let runs = idle_round idle clock (thread_of c id s) d.leaving d.norm_empty d.pri_empty in
      let (t, later, done) =
        stays-IsDone idle rest before
          (after_round c id
            (record { thread = record (thread_of c id s) { stat = 1 }; ran = []; next = quits }) s)
          (record {
            leaving = d.leaving;
            norm_empty = d.norm_empty;
            pri_empty = d.pri_empty;
            all_run = d.all_run;
          }) in
      (t, ground (arith, runs, later), done)

  none_left-IsDone :
      (s : System c)
      → (s.pool.status == flag_closing || s.pool.status == flag_rest) ≡ true
      → left_in s ≡ 0
      → IsDone s s
  none_left-IsDone s leaving none_left =
      let norm = no_messages (contents s.pool.queues.norm_state) (omega (arith, none_left)) in
      let pri = no_messages (contents s.pool.queues.pri_state) (omega (arith, none_left)) in
      record {
        leaving = leaving;
        norm_empty = norm;
        pri_empty = pri;
        all_run = λ i. omega (
          arith,
          ap₂ (λ (ms : List Message) (ns : List Message). count i (jobs_in ms ++ jobs_in ns)) norm
              pri,
        );
      }

  advanced-IsDone :
      (idle : IdleThreshold) (clock : Clock) (id : ℕ) (s t : System c) (r : Round c)
      → Advances c fifo idle clock (thread_of c id s) r
      → IsDone (after_round c id r s) t
      → IsDone s t
  advanced-IsDone idle clock id s t r a d = record {
    leaving = d.leaving;
    norm_empty = d.norm_empty;
    pri_empty = d.pri_empty;
    all_run = λ i. omega (arith, d.all_run i, a.jobs i, count-append i r.ran s.executed);
  }

  rounds-IsDone :
      (idle : IdleThreshold) (schedule : List (ℕ × Clock)) (ws : List ℕ) (s : System c)
      → (s.pool.status == flag_closing || s.pool.status == flag_rest) ≡ true
      → AllDrain ws s
      → Among ws schedule
      → total ws s ≤ length schedule
      → (t : System c) × (rounds c idle schedule s ≡ some t) × IsDone s t
  unfolding rounds
  rounds-IsDone idle [] ws s leaving all among enough =
      (s, refl, none_left-IsDone s leaving (omega (arith, enough)))
  rounds-IsDone idle ((id, clock) ∷ rest) ws s leaving all among enough =
      elim (Bool-cases (left_in s == 0)) [
        | inl gone ↦
            stays-IsDone idle ((id, clock) ∷ rest) s s
              (none_left-IsDone s leaving (ground (arith, gone)))
        | inr more ↦
            let some_left : 0 < waiting c fifo (thread_of c id s) = ground (arith, more) in
            let (r, a) =
              round-Advances c fifo idle clock (thread_of c id s) (all id among.0) some_left in
            let (still, less) = round_of-Advances idle clock ws id s r among.0 all a in
            let fewer : total ws (after_round c id r s) ≤ length rest =
              omega (arith, less, enough) in
            let (t, later, done) =
              rounds-IsDone idle rest ws (after_round c id r s) a.drains.leaving still among.1
                fewer in
            (t, ground (arith, a.runs, later), advanced-IsDone idle clock id s t r a done)
      ]

  -- Over channels that keep their documented order, a closing pool is worked off, however the rounds
  -- of its workers interleave. Let the pool be closing or at rest, with no chained message in its
  -- queues; let no worker that stands once in a list have a clock or be told to stop; and let a
  -- schedule give rounds to such workers alone, at least two for each message in the queues and one
  -- more for each entry of the list. Then no round panics; afterwards both queues are empty, and
  -- every job has been executed as often as it waited there.
  pub closing_pool_empties :
      (idle : IdleThreshold) (schedule : List (ℕ × Clock)) (ws : List ℕ) (s : System c)
      → (s.pool.status == flag_closing || s.pool.status == flag_rest) ≡ true
      → AllDrain ws s
      → Among ws schedule
      → 2 * left_in s + length ws ≤ length schedule
      → (t : System c) × (rounds c idle schedule s ≡ some t) × IsDone s t
  closing_pool_empties idle schedule ws s leaving all among enough =
      rounds-IsDone idle schedule ws s leaving all among (omega (arith, enough, skips_le ws s.own))

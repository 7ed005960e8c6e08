-- ===== src/Model/Backoff.antt =====
-- src/model.rs, the shared utilities on an `AtomicI8`: `spin_update`, `concede_update`,
-- `reset_lock` and `cpu_relax`. An `i8` is its bit pattern, so -1 is 255 and a product wraps at 256.
-- Other threads enter as a schedule: what each attempt finds in the cell, and whether the weak
-- compare-exchange fails for no reason. `none` means that the schedule ends while the loop spins.
pub mod Spin
pub mod Exclusion
use thread_pool.Prelude.{
  ℕ, suc, ◌+◌, ◌*◌, ◌%◌, ◌^◌, ◌≡◌, refl, Bool, true, false, not, ◌&&◌, List, [], ◌∷◌, Option, none,
  some, if◌then◌else◌, ◌==◌, ltb,
}

-- -1 as an `i8`.
abbrev pub minus_one : ℕ
minus_one = 255

abbrev pub backoff_retry_limit : ℕ
backoff_retry_limit = 16

-- What one `compare_exchange_weak` meets.
pub record Attempt : Type 0 where
  pub found : ℕ
  pub spurious : Bool

-- The exchange writes when it finds the old value and does not fail spuriously.
abbrev pub exchanges : ℕ → Attempt → Bool
exchanges old a = a.found == old && not a.spurious

-- An attempt on a cell that no other thread touches.
abbrev pub alone : ℕ → Attempt
alone v = record { found = v; spurious = false }

-- How a failed attempt passes the time: hints to the processor, or a yield.
pub data Pause : Type 0 where
  hints : ℕ → Pause
  yield_now : Pause

-- The loop runs `1 << count` times.
unfoldable pub cpu_relax : ℕ → Pause
cpu_relax count = hints (2 ^ count)

-- The body of the loop from a retry counter on; the pauses are listed in order.
pub spin_from : ℕ → List Attempt → ℕ → Option (ℕ × List Pause)
unfolding cpu_relax
spin_from retry [] new = none
spin_from retry (a ∷ rest) new = elim (exchanges 0 a) [
  | true ↦ some (new, [])
  | false ↦
      let more = ltb retry backoff_retry_limit in
      let pause = if more then cpu_relax (retry + 1) else yield_now in
      elim (spin_from (if more then retry + 1 else retry) rest new) [
        | none ↦ none
        | some (cell, pauses) ↦ some (cell, pause ∷ pauses)
      ]
]

unfoldable pub spin_update : List Attempt → ℕ → Option (ℕ × List Pause)
unfolding spin_from
spin_update attempts new = spin_from 0 attempts new

-- `state * new > 0` on `i8`: the sign of the wrapped product.
abbrev pub same_direction : ℕ → ℕ → Bool
same_direction state new = let p = state * new % 256 in ltb 0 p && ltb p 128

-- The cell's value as it was loaded, and the attempts of the spin that follows; the result is the
-- returned flag and the cell's last value.
unfoldable pub concede_update : ℕ → List Attempt → ℕ → Option (Bool × ℕ)
unfolding spin_update
concede_update state attempts new =
    if new == 0
    then some (false, state)
    else if same_direction state new
    then some (false, state)
    else elim (spin_update attempts new) [ none ↦ none | some (cell, pauses) ↦ some (true, cell) ]

abbrev pub reset_lock : ℕ
reset_lock = 0

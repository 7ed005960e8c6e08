-- ===== src/Status.antt =====
-- src/pool.rs, `PoolStatus`: the status byte that the pool and its workers share. An operation
-- takes the byte and returns what it leaves there.
pub mod Flags
pub mod Reads
use Prim.Native.Nat.{bit_and, bit_or, bit_xor}
use thread_pool.Prelude.{
  ℕ, ◌%◌, Bool, true, false, not, ◌&&◌, ◌||◌, List, [], ◌∷◌, Option, none, some, if◌then◌else◌,
  ◌==◌, ltb,
}
use thread_pool.Model.{flag_closing, flag_force_close, flag_hibernating, flag_sleep_workers}
use thread_pool.Model.Backoff.{Attempt, exchanges, alone}

-- `fetch_and` writes the masked byte and returns the byte as it was before.
unfoldable pub closing : ℕ → Bool × ℕ
closing status = (ltb 0 status, bit_and status (bit_or flag_closing flag_force_close))

unfoldable pub has_hibernate_workers : ℕ → Bool × ℕ
has_hibernate_workers status =
    (ltb 0 status, bit_and status (bit_or flag_hibernating flag_sleep_workers))

-- `none` is `Err(())`: the flag stands as desired.
unfoldable pub calc_new_stat : ℕ → ℕ → Bool → Option ℕ
calc_new_stat old flag toggle_on =
    if (toggle_on && ltb 0 (bit_and old flag)) || (not toggle_on && bit_and old flag == 0)
    then none
    else some (if toggle_on then bit_or old flag else bit_xor old flag)

-- The weak exchange: whether it has written, and the byte afterwards.
unfoldable pub compare_exchange : Attempt → ℕ → ℕ → Bool × ℕ
compare_exchange a old new = if exchanges old a then (true, new) else (false, a.found)

pub data Toggle : Type 0 where
  panicked : Toggle
  looping : Toggle
  done : ℕ → Toggle

-- The `while let Err(curr)` loop with its `old` and `new`; `looping` means that the schedule of
-- attempts ended.
unfoldable pub toggle_loop : List Attempt → ℕ → ℕ → ℕ → Bool → Toggle
toggle_loop [] old new flag on = looping
toggle_loop (a ∷ rest) old new flag on = elim (exchanges old a) [
  | true ↦ done new
  | false ↦ elim (calc_new_stat a.found flag on) [
    | none ↦ done a.found
    | some val ↦ toggle_loop rest a.found val flag on
  ]
]

-- The byte as it is loaded first, then what each exchange meets.
unfoldable pub toggle_flag : ℕ → List Attempt → ℕ → Bool → Toggle
unfolding toggle_loop
toggle_flag old attempts flag on =
    if flag % 2 == 0 || flag == 1
    then elim (calc_new_stat old flag on) [
      | none ↦ done old
      | some val ↦ toggle_loop attempts old val flag on
    ]
    else panicked

-- A toggle that no other thread disturbs, on the byte that it finds.
abbrev or_old : ℕ → Toggle → ℕ
or_old old (done new) = new
or_old old _ = old

unfoldable pub toggle_alone : ℕ → ℕ → Bool → ℕ
unfolding toggle_flag calc_new_stat
toggle_alone old flag on = or_old old (toggle_flag old (alone old ∷ []) flag on)

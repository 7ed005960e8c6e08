-- ===== src/Tests/Basics.antt =====
-- src/model.rs, the status byte and the idle thresholds: the theorems at concrete values.
use Prim.Native.Nat.{bit_and}
use thread_pool.Prelude.{ℕ, ◌≡◌, ◌≢◌, ◌↔◌, refl, arith, true, [], ◌∷◌}
use thread_pool.Model.Backoff.{Attempt, alone}
use thread_pool.Model.Backoff.Exclusion.{
  spinning, inside, Threads, update, begin, attempt, Reach, here, next, free, lock_exclusive,
}
use thread_pool.Status.{closing, has_hibernate_workers, calc_new_stat, toggle_flag, done}
use thread_pool.Status.Flags.{Ended, toggle_flag_toggles}
use thread_pool.Status.Reads.{reads_write}
use thread_pool.Idle.{IdleThreshold}

-- An exchange that fails though it finds the lock free.
abbrev spurious : Attempt
spurious = record { found = 0; spurious = true }

-- Thread 7 is in the loop of `spin_update`, and then has the lock.
abbrev started : Threads
started = record { cell = 0; pc = update free.pc 7 (spinning 1) }

abbrev locked : Threads
locked = record { cell = 1; pc = update started.pc 7 (inside 1) }

Reach-locked : Reach free locked
Reach-locked =
    next (next here (begin 7 1 refl (omega arith) refl)) (attempt 7 1 (alone 0) refl refl refl refl)

lock_exclusive_example : (◌≡◌ {A = ℕ} 7 7) × (locked.cell ≡ 1) × (locked.cell ≢ 0)
lock_exclusive_example = lock_exclusive locked 7 7 1 1 Reach-locked refl refl

flag_set : toggle_flag 4 (alone 1 ∷ alone 1 ∷ []) 32 true ≡ done 33
unfolding toggle_flag calc_new_stat
flag_set = refl

toggle_flag_toggles_example : Ended 4 32 true 33 (alone 1 ∷ alone 1 ∷ [])
toggle_flag_toggles_example =
    toggle_flag_toggles 5 4 33 true (alone 1 ∷ alone 1 ∷ []) (omega arith) (omega arith)
      (omega arith, (omega arith, tt)) flag_set

reads_write_example :
    (((closing 36).0 ≡ true) ↔ ◌≢◌ {A = ℕ} 36 0)
    × (((has_hibernate_workers 36).0 ≡ true) ↔ ◌≢◌ {A = ℕ} 36 0)
    × (bit_and (closing 36).1 3 ≡ bit_and 36 3)
    × (bit_and (closing 36).1 252 ≡ 0)
    × (bit_and (has_hibernate_workers 36).1 36 ≡ bit_and 36 36)
    × (bit_and (has_hibernate_workers 36).1 219 ≡ 0)
reads_write_example = reads_write 36 (omega arith)

abbrev default_idle : IdleThreshold
default_idle = record { hibernate = 128; retire = 512 }

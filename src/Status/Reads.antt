-- ===== src/Status/Reads.antt =====
-- src/pool.rs, `PoolStatus::closing` and `PoolStatus::has_hibernate_workers`: what they answer, and
-- what they leave of the byte that they read.
use Prim.Native.Nat.{bit_and}
use thread_pool.Prelude.{ℕ, ◌<◌, ◌≡◌, ◌≢◌, ◌↔◌, refl, Bool, true, ◌&&◌, arith, ◌==◌}
use thread_pool.Prelude.Bytes.{all_below, all_below_sound}
use thread_pool.Status.{closing, has_hibernate_workers}

reads_test : ℕ → Bool
unfolding closing has_hibernate_workers
reads_test s =
    bit_and (closing s).1 3 == bit_and s 3
    && bit_and (closing s).1 252 == 0
    && bit_and (has_hibernate_workers s).1 36 == bit_and s 36
    && bit_and (has_hibernate_workers s).1 219 == 0

reads_table : all_below 256 reads_test ≡ true
unfolding reads_test
reads_table = refl

reads_masks :
    (s : ℕ)
    → s < 256
    → (bit_and (closing s).1 3 ≡ bit_and s 3)
      × (bit_and (closing s).1 252 ≡ 0)
      × (bit_and (has_hibernate_workers s).1 36 ≡ bit_and s 36)
      × (bit_and (has_hibernate_workers s).1 219 ≡ 0)
reads_masks s h =
    let t = all_below_sound 256 reads_test s reads_table h in unfold reads_test in ground (arith, t)

-- Both reads answer yes exactly when any flag at all stands, since `fetch_and` hands back the byte
-- as it was before the mask. Both also write: `closing` keeps the two closing flags and clears the
-- six other bits; `has_hibernate_workers` keeps the hibernation and sleep flags and clears the six
-- others, the closing flags among them.
pub reads_write :
    (s : ℕ)
    → s < 256
    → (((closing s).0 ≡ true) ↔ (s ≢ 0))
      × (((has_hibernate_workers s).0 ≡ true) ↔ (s ≢ 0))
      × (bit_and (closing s).1 3 ≡ bit_and s 3)
      × (bit_and (closing s).1 252 ≡ 0)
      × (bit_and (has_hibernate_workers s).1 36 ≡ bit_and s 36)
      × (bit_and (has_hibernate_workers s).1 219 ≡ 0)
unfolding closing has_hibernate_workers
reads_write s h = let m = reads_masks s h in (ground arith, ground arith, m.0, m.1, m.2, m.3)

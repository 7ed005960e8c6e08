-- ===== src/Idle.antt =====
-- src/manager.rs, `IdleThreshold`: the two thresholds in seconds that all workers share.
use thread_pool.Prelude.{ℕ, ◌≤◌, ◌<◌, ◌≡◌, ◌↔◌, ◌⊎◌, arith, if◌then◌else◌, ◌==◌, ◌&&◌, ltb}

pub record IdleThreshold : Type 0 where
  pub hibernate : ℕ
  pub retire : ℕ

-- 0: go on, 1: hibernate, 2: retire.
unfoldable pub idle_stat : IdleThreshold → ℕ → ℕ
idle_stat t period =
    let h = t.hibernate in
    let r = t.retire in
    if ltb 0 h && ltb 0 r
    then (if ltb period h then 0 else if ltb period r then 1 else 2)
    else if ltb 0 h && r == 0
    then (if ltb period h then 0 else 1)
    else if h == 0 && ltb 0 r
    then (if ltb period r then 0 else 2)
    else 0

-- A threshold of 0 is switched off; any other has been passed once the period reaches it.
abbrev pub Passed : ℕ → ℕ → Type 0
Passed threshold period = (0 < threshold) × (threshold ≤ period)

-- A worker hibernates exactly when the first threshold is passed and the second is not, and retires
-- exactly when the second is passed and the first is passed or off; else it goes on, and no other
-- code is returned.
pub idle_stat_codes :
    (t : IdleThreshold) (period : ℕ)
    → ((idle_stat t period ≡ 1) ↔ (Passed t.hibernate period × ¬ Passed t.retire period))
      × ((idle_stat t period ≡ 2)
          ↔ (Passed t.retire period × ((t.hibernate ≡ 0) ⊎ Passed t.hibernate period)))
      × (idle_stat t period ≤ 2)
unfolding idle_stat
idle_stat_codes t period = ground arith

-- ===== src/Manager/Lock.antt =====
-- src/manager.rs, `Backoff for Manager`: a manager whose lock is free takes it.
use thread_pool.Prelude.{◌≡◌, true, some, arith}
use thread_pool.Model.Backoff.{minus_one}
use thread_pool.Manager.{Manager, spin_update, concede_update}

pub concede_free_up :
    (m : Manager) → m.mutating ≡ 0 → concede_update m 1 ≡ some (true, record m { mutating = 1 })
unfolding concede_update
concede_free_up m e = ground arith

pub concede_free_down :
    (m : Manager)
    → m.mutating ≡ 0
    → concede_update m minus_one ≡ some (true, record m { mutating = minus_one })
unfolding concede_update
concede_free_down m e = ground arith

pub spin_free :
    (m : Manager)
    → m.mutating ≡ 0
    → spin_update m minus_one ≡ some (record m { mutating = minus_one })
unfolding spin_update
spin_free m e = ground arith

-- ===== src/Tests/Threads.antt =====
-- src/multi.rs: threads of `remove_pool` and `add_pool` on a store with one pool.
use thread_pool.Prelude.{ℕ, ◌≤◌, ◌≡◌, ◌==◌, if◌then◌else◌, subst, refl, arith, some}
use thread_pool.Multi.Threads.{Task, Place, Threads, acts}
use thread_pool.Multi.Threads.Crowd.{IsRemover, gathering, taking_turns, removers_crowd}
use thread_pool.Tests.{buffers}
use thread_pool.Tests.Multis.{one, mail_absent}

-- The first thread removes a pool that is not there, the second one the pool that is, and the third
-- one adds a pool.
abbrev task_of : ℕ → Task
task_of i =
    if i == 0
    then Task.removes "mail"
    else if i == 1
    then Task.removes "web"
    else Task.adds "news" 4

abbrev waiting : Threads buffers
waiting = record { cell = 0; store = one.store; task = task_of; place = λ i. Place.arriving }

web_removed : (i : ℕ) → 1 ≤ i → i ≤ 1 → IsRemover buffers waiting i
web_removed i low high =
    let here : 1 ≡ i = omega (arith, low, high) in
    subst (IsRemover buffers waiting) here (refl, "web", refl)

removers_crowd_example :
    (t u : Threads buffers) × (acts buffers (gathering 1) waiting ≡ some t)
    × ((i : ℕ) → i ≤ 1 → t.place i ≡ Place.inside)
    × (acts buffers (taking_turns 1) t ≡ some u)
    × ((i : ℕ) → 1 ≤ i → i ≤ 2 → u.place i ≡ Place.inside)
    × (u.place 0 ≡ Place.finished)
    × (u.cell ≡ 1)
    × (u.store ≡ one.store)
removers_crowd_example =
    removers_crowd buffers 1 "mail" "news" 4 waiting refl refl refl mail_absent web_removed refl
      refl

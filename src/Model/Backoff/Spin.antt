-- ===== src/Model/Backoff/Spin.antt =====
-- src/model.rs, `spin_update` and `concede_update`: when they end, and with what.
use thread_pool.Prelude.{
  ℕ, ◌+◌, ◌^◌, ◌≡◌, refl, true, false, List, [], ◌∷◌, ◌++◌, none, some, if◌then◌else◌, ltb, All,
}
use thread_pool.Model.Backoff.{
  Attempt, exchanges, Pause, hints, yield_now, spin_from, spin_update, concede_update, minus_one,
}

-- The attempt does not take the lock.
abbrev pub Fails : Attempt → Type 0
Fails a = exchanges 0 a ≡ false

-- The pauses after failed attempts, from a retry counter on: bursts that double sixteen times at
-- most, then yields.
abbrev pub pauses_from : ℕ → List Attempt → List Pause
pauses_from retry [] = []
pauses_from retry (a ∷ rest) =
    (if ltb retry 16 then hints (2 ^ (retry + 1)) else yield_now)
    ∷ pauses_from (if ltb retry 16 then retry + 1 else retry) rest

spin_from_waits :
    (retry : ℕ) (before : List Attempt) (a : Attempt) (rest : List Attempt) (new : ℕ)
    → All Fails before
    → exchanges 0 a ≡ true
    → spin_from retry (before ++ a ∷ rest) new ≡ some (new, pauses_from retry before)
unfolding spin_from
spin_from_waits retry [] a rest new h good = rw (good, spin_from)
spin_from_waits retry (b ∷ before) a rest new h good =
    rw (h.0, spin_from)
      (rw (spin_from_waits (if ltb retry 16 then retry + 1 else retry) before a rest new h.1 good))

spin_from_starves :
    (retry : ℕ) (busy : List Attempt) (new : ℕ) → All Fails busy → spin_from retry busy new ≡ none
unfolding spin_from
spin_from_starves retry [] new h = refl
spin_from_starves retry (b ∷ busy) new h =
    rw (h.0, spin_from)
      (rw (spin_from_starves (if ltb retry 16 then retry + 1 else retry) busy new h.1))

-- The spin ends at the first attempt that finds 0 and does not fail spuriously, whatever follows.
-- It leaves the new value, and has paused once for each failed attempt, by bursts of 2, 4, ... up
-- to 2 ^ 16 hints and then by yields.
pub spin_update_takes :
    (before : List Attempt) (a : Attempt) (rest : List Attempt) (new : ℕ)
    → All Fails before
    → exchanges 0 a ≡ true
    → spin_update (before ++ a ∷ rest) new ≡ some (new, pauses_from 0 before)
unfolding spin_update
spin_update_takes before a rest new h good = spin_from_waits 0 before a rest new h good

-- While no attempt finds the lock free, the spin does not end.
pub spin_update_starves :
    (busy : List Attempt) (new : ℕ) → All Fails busy → spin_update busy new ≡ none
unfolding spin_update
spin_update_starves busy new h = spin_from_starves 0 busy new h

-- Let the lock come free after some failed attempts. A grower (1) concedes to a grower and a
-- shrinker (-1) to a shrinker, at once and without touching the lock. Against the other direction,
-- or on a free lock, each waits until the lock is free and takes it.
pub concede_update_directions :
    (busy : List Attempt) (a : Attempt) (rest : List Attempt)
    → All Fails busy
    → exchanges 0 a ≡ true
    → (concede_update 1 (busy ++ a ∷ rest) 1 ≡ some (false, 1))
      × (concede_update minus_one (busy ++ a ∷ rest) minus_one ≡ some (false, minus_one))
      × (concede_update 1 (busy ++ a ∷ rest) minus_one ≡ some (true, minus_one))
      × (concede_update minus_one (busy ++ a ∷ rest) 1 ≡ some (true, 1))
      × (concede_update 0 (busy ++ a ∷ rest) 1 ≡ some (true, 1))
      × (concede_update 0 (busy ++ a ∷ rest) minus_one ≡ some (true, minus_one))
unfolding concede_update
concede_update_directions busy a rest fails takes =
    let shrink = spin_from_waits 0 busy a rest minus_one fails takes in
    let grow = spin_from_waits 0 busy a rest 1 fails takes in
    (refl, refl, rw shrink, rw grow, rw grow, rw shrink)

-- ===== src/Multi/Sound.antt =====
-- src/multi.rs: what the operations on the store preserve.
use thread_pool.Prelude.{
  ℕ, ◌≡◌, ◌≢◌, ◌⊎◌, refl, sym, ap, subst, ◌∙◌, Bool, true, false, String, List, [], Option, none,
  some, Option-cases, if◌then◌else◌, ◌==◌, arith, Bool-cases, inl, inr,
}
use thread_pool.Prelude.Maps.{lookup, insert, remove}
use thread_pool.Channel.{Channel}
use thread_pool.Once.{Once}
use thread_pool.Pool.{ThreadPool, new}
use thread_pool.Pool.Resizing
use thread_pool.Multi.{PoolStore, concede_update, reset_lock}
use thread_pool.Multi.Changing.{close_and_drop, take_out, put_new, put_in}
use thread_pool.Multi.Adjusting.{stopped, started}
use thread_pool.Model.Backoff.{minus_one}
use thread_pool.Prelude.Maps.{is_empty_text}
use thread_pool.Multi.Store.{free_for}
use thread_pool.Multi.Locking.{held_against}
use thread_pool.Multi.Adjusting.{is_running}
use thread_pool.Multi.Adjusting.Periods.{without_adjustment}
use thread_pool.Multi.Keys.{AreKeys, insert-AreKeys, remove-AreKeys}

-- What holds of the store between two calls: its keys are not empty and differ, its lock is free or
-- a grower's, and there is an adjusting thread while some pool is in automatic mode.
pub record IsSound (c : Channel) (p : PoolStore c) : Type 0 where
  pub keys : AreKeys p.store
  pub lock : (p.mutating ≡ 0) ⊎ (p.mutating ≡ 1)
  pub adjusted : p.auto_adjust_register ≢ [] → p.auto_adjust_handler ≢ none

module _ (c : Channel) where
  -- What an update of the store to an optional one preserves.
  abbrev pub Preserved : PoolStore c → Option (PoolStore c) → Type 0
  Preserved p result = (q : PoolStore c) → result ≡ some q → IsSound c q

  pub with_store-IsSound :
      (p : PoolStore c) (store : List (String × ThreadPool c))
      → IsSound c p
      → AreKeys store
      → IsSound c (record p { store = store })
  with_store-IsSound p store v keys = record { keys = keys; lock = v.lock; adjusted = v.adjusted }

  unlocked-IsSound :
      (p : PoolStore c) (store : List (String × ThreadPool c))
      → IsSound c p
      → AreKeys store
      → IsSound c (record p { store = store; mutating = 0 })
  unlocked-IsSound p store v keys = record { keys = keys; lock = inl refl; adjusted = v.adjusted }

module _ (c : Channel) (o : Once) where
  -- A grower always goes on, and the lock is a grower's then.
  grower_goes_on :
      (p : PoolStore c)
      → IsSound c p
      → (mine : Bool) × (concede_update c 1 p ≡ some (mine, record p { mutating = 1 }))
  grower_goes_on p v = elim v.lock [
    | inl free ↦ (true, free_for c 1 p refl free)
    | inr held ↦
        let same : p ≡ record p { mutating = 1 } = ap (λ (l : ℕ). record p { mutating = l }) held in
        (false, (held_against c o p held).1 ∙ ap (λ (q : PoolStore c). some (false, q)) same)
  ]

  pub take_out-IsSound :
      (key : String) (p : PoolStore c) → IsSound c p → Preserved c p (take_out c key p)
  unfolding take_out reset_lock
  take_out-IsSound key p v q e = elim v.lock [
    | inr held ↦ absurd (ground (arith, e, held_against c o p held))
    | inl free ↦
        let goes = free_for c minus_one p refl free in
        elim (Option-cases (lookup key p.store)) [
          | inl gone ↦
              let same : q ≡ record p { mutating = 0 } = ground (arith, e, goes, gone) in
              subst (IsSound c) (sym same) (unlocked-IsSound c p p.store v v.keys)
          | inr (pool, there) ↦ elim (Bool-cases (close_and_drop c pool)) [
            | inl ends ↦
                let same : q ≡ record p { store = remove key p.store; mutating = 0 } =
                  ground (arith, e, goes, there, ends) in
                subst (IsSound c) (sym same)
                  (unlocked-IsSound c p (remove key p.store) v (remove-AreKeys key p.store v.keys))
            | inr waits ↦ absurd (ground (arith, e, goes, there, waits))
          ]
        ]
  ]

  put_new-IsSound :
      (key : String) (size : ℕ) (p : PoolStore c)
      → is_empty_text key ≡ false
      → IsSound c p
      → Preserved c p (put_new c key size p)
  unfolding put_new reset_lock
  put_new-IsSound key size p named v q e = elim (Option-cases (new c size)) [
    | inl fails ↦ absurd (ground (arith, e))
    | inr (pool, made) ↦
        let same : q ≡ record p { store = insert key pool p.store; mutating = 0 } =
          ground (arith, e, made) in
        subst (IsSound c) (sym same) (
          unlocked-IsSound c p (insert key pool p.store) v
            (insert-AreKeys key pool p.store named v.keys))
  ]

  pub put_in-IsSound :
      (key : String) (size : ℕ) (p : PoolStore c)
      → is_empty_text key ≡ false
      → IsSound c p
      → Preserved c p (put_in c key size p)
  unfolding put_in
  put_in-IsSound key size p named v q e =
      let (mine, goes) = grower_goes_on p v in
      let locked = record p { mutating = 1 } in
      let sound : IsSound c locked = record {
        keys = v.keys;
        lock = inr refl;
        adjusted = v.adjusted;
      } in
      elim (Option-cases (lookup key p.store)) [
        | inl gone ↦ put_new-IsSound key size locked named sound q (ground (arith, e, goes, gone))
        | inr (pool, there) ↦ elim (Bool-cases (Resizing.get_size c pool == size)) [
          | inl same_size ↦
              put_new-IsSound key size locked named sound q
                (ground (arith, e, goes, there, same_size))
          | inr differs ↦ elim (Option-cases (Resizing.resize c size pool)) [
            | inl fails ↦ absurd (ground (arith, e, goes, there, differs, fails))
            | inr (resized, made) ↦
                let same : q ≡ record locked { store = insert key resized p.store } =
                  ground (arith, e, goes, there, differs, made) in
                subst (IsSound c) (sym same) (
                  with_store-IsSound c locked (insert key resized p.store) sound
                    (insert-AreKeys key resized p.store named v.keys))
          ]
        ]
      ]

  stopped_lem : (p q : PoolStore c) → stopped c o p ≡ some q → q ≡ without_adjustment c o p
  unfolding stopped
  stopped_lem p q e = ground (arith, e)

  pub stopped-IsSound :
      (p : PoolStore c)
      → AreKeys p.store
      → (p.mutating ≡ 0) ⊎ (p.mutating ≡ 1)
      → Preserved c p (stopped c o p)
  stopped-IsSound p keys lock q e =
      subst (IsSound c) (sym (stopped_lem p q e))
        (record { keys = keys; lock = lock; adjusted = λ some_key. absurd (some_key refl) })

  -- A start makes the adjusting thread that there should be.
  pub started-IsSound :
      (period : ℕ) (p : PoolStore c)
      → AreKeys p.store
      → (p.mutating ≡ 0) ⊎ (p.mutating ≡ 1)
      → Preserved c p (started c o period p)
  unfolding started
  started-IsSound period p keys lock q e =
      elim (Option-cases (if is_running p.auto_adjust_handler then stopped c o p else some p)) [
        | inl waits ↦ absurd (ground (arith, e))
        | inr (r, first) ↦
            let same : (r.store ≡ p.store) × (r.mutating ≡ p.mutating) =
              elim (Bool-cases (is_running p.auto_adjust_handler)) [
                | inl running ↦
                    let done : r ≡ without_adjustment c o p =
                      stopped_lem p r (ground (arith, first, running)) in
                    (
                      ap (λ (x : PoolStore c). x.store) done,
                      ap (λ (x : PoolStore c). x.mutating) done,
                    )
                | inr still ↦
                    let done : r ≡ p = ground (arith, first, still) in
                    (
                      ap (λ (x : PoolStore c). x.store) done,
                      ap (λ (x : PoolStore c). x.mutating) done,
                    )
              ] in
            let here : (q.store ≡ r.store) × (q.mutating ≡ r.mutating) =
              (ground (arith, e, first), ground (arith, e, first)) in
            record {
              keys = subst AreKeys (sym (here.0 ∙ same.0)) keys;
              lock = subst (λ (l : ℕ). (l ≡ 0) ⊎ (l ≡ 1)) (sym (here.1 ∙ same.1)) lock;
              adjusted = λ some_key none_there. ground (arith, none_there, first);
            }
      ]

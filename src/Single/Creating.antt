-- ===== src/Single/Creating.antt =====
-- src/single.rs: what the calls that create a pool keep of it.
use thread_pool.Prelude.{
  ℕ, ◌≤◌, ◌≡◌, refl, Bool, true, false, none, some, Option-cases, Result-cases, if◌then◌else◌, ◌==◌,
  arith, Bool-cases, inl, inr,
}
use thread_pool.Model.{store_set}
use thread_pool.Channel.{Channel}
use thread_pool.Config
use thread_pool.Config.{Config}
use thread_pool.Once.{Once}
use thread_pool.Pool.{toggle_auto_scale, new_with_config}
use thread_pool.Pool.Resizing
use thread_pool.Pool.Scaling.{resize-SameScale}
use thread_pool.Pool.Life
use thread_pool.Single.{
  one_second, Pool, Statics, start_auto_adjustment, inner, shut_down, close, create, set_pool, drop,
  init_with_config, resize,
}
use thread_pool.Single.Holding.{
  IsTuned, Holds, stored-IsTuned, same-Holds, inner-some, pooled-Holds, shut_down-Holds,
}

module _ (c : Channel) (o : Once) where
  drop-Holds :
      (spurious : Bool) (p : Pool c) (s t : Statics c o)
      → Holds c o s
      → drop c o spurious p s ≡ some t
      → Holds c o t
  unfolding drop close
  drop-Holds spurious p s t h e = elim (Bool-cases s.closing) [
    | inl closed ↦ elim (Option-cases (Life.drop c p.store)) [
      | inl waits ↦ absurd (ground arith)
      | inr (gone, dropped) ↦ same-Holds c o s t (ground arith) h
    ]
    | inr going ↦ elim (Option-cases (shut_down c o false spurious s)) [
      | inl waits ↦ absurd (ground arith)
      | inr (u, shut) ↦ elim (Option-cases (Life.drop c p.store)) [
        | inl waits ↦ absurd (ground arith)
        | inr (gone, dropped) ↦
            same-Holds c o u t (ground arith) (shut_down-Holds c o false spurious s u h shut)
      ]
    ]
  ]

  set_pool-Holds :
      (spurious : Bool) (p : Pool c) (s t : Statics c o)
      → IsTuned c p
      → set_pool c o spurious p s ≡ some t
      → Holds c o t
  unfolding set_pool store_set
  set_pool-Holds spurious p s t v e =
      let stored = record s { pool = store_set s.pool p } in
      let tuned : Holds c o stored = pooled-Holds c o s stored p refl v in
      elim (Option-cases s.pool.inner) [
        | inl fresh ↦ same-Holds c o stored t (ground arith) tuned
        | inr (old, there) ↦ drop-Holds spurious old stored t tuned (ground arith)
      ]

  -- The thread's period is at least a second.
  pub started_runs :
      (period : ℕ)
      → (one_second ≤ (start_auto_adjustment period).period)
        × ((start_auto_adjustment period).panicked ≡ false)
  unfolding start_auto_adjustment
  started_runs period = ground arith

  create-Holds :
      (spurious : Bool) (size : ℕ) (config : Config) (s t : Statics c o)
      → Holds c o s
      → create c o spurious size config s ≡ some t
      → Holds c o t
  unfolding create toggle_auto_scale
  create-Holds spurious size config s t h e = elim (Bool-cases (size == 0)) [
    | inl nothing ↦ same-Holds c o s t (ground arith) h
    | inr some_size ↦ elim (Option-cases (new_with_config c size config)) [
      | inl fails ↦ absurd (ground arith)
      | inr (store, made) ↦ elim (Option-cases config.refresh_period) [
        | inl by_hand ↦
            set_pool-Holds spurious
              (record {
                store = toggle_auto_scale c false store;
                auto_mode = false;
                auto_adjust_handler = none;
              })
              s t (record { scales = refl; adjusts = λ a some_handler. absurd (ground arith) })
              (ground arith)
        | inr (period, auto) ↦
            set_pool-Holds spurious
              (record {
                store = toggle_auto_scale c true store;
                auto_mode = true;
                auto_adjust_handler = some (start_auto_adjustment period);
              })
              s t
              (record { scales = refl; adjusts = λ a handler. ground (arith, started_runs period) })
              (ground arith)
      ]
    ]
  ]

  pub init-Holds :
      (spurious : Bool) (size : ℕ) (config : Config) (s t : Statics c o)
      → Holds c o s
      → init_with_config c o spurious size config s ≡ some t
      → Holds c o t
  unfolding init_with_config
  init-Holds spurious size config s t h e =
      let actual = if size == 0 then 1 else size in
      let entered = record s { once = o.enter s.once } in
      elim (Option-cases (create c o spurious actual config entered)) [
        | inl panics ↦ absurd (ground arith)
        | inr (u, made) ↦
            same-Holds c o u t (ground arith)
              (create-Holds spurious actual config entered u (same-Holds c o s entered refl h) made)
      ]

  pub resize-Holds :
      (spurious : Bool) (size : ℕ) (s t : Statics c o)
      → Holds c o s
      → resize c o spurious size s ≡ some t
      → Holds c o t
  unfolding resize close
  resize-Holds spurious size s t h e =
      elim (Option-cases (if size == 0 then close c o spurious s else some s)) [
        | inl panics ↦ absurd (ground arith)
        | inr (u, first) ↦
            let kept : Holds c o u = elim (Bool-cases (size == 0)) [
              | inl none_asked ↦ shut_down-Holds c o false spurious s u h (ground arith)
              | inr more ↦ same-Holds c o s u (ground arith) h
            ] in
            elim (Result-cases (inner c o u)) [
              | inr (kind, refused) ↦ create-Holds spurious size Config.new u t kept (ground arith)
              | inl (p, found) ↦ elim (Option-cases (Resizing.resize c size p.store)) [
                | inl waits ↦ absurd (ground arith)
                | inr (store, resized) ↦
                    pooled-Holds c o u t (record p { store = store }) (ground arith)
                      (stored-IsTuned c p store (kept p (inner-some c o u p found))
                        (resize-SameScale c size p.store store resized))
              ]
            ]
      ]

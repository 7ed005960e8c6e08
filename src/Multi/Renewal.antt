-- ===== src/Multi/Renewal.antt =====
-- src/multi.rs: what holds of the store after it is closed, or made anew.
use thread_pool.Prelude.{
  ℕ, ◌≡◌, ◌⊎◌, refl, subst, Bool, false, not, String, List, [], none, some, Option-cases,
  if◌then◌else◌, arith, Bool-cases, inl, inr,
}
use thread_pool.Model.{as_ref, store_set}
use thread_pool.Channel.{Channel}
use thread_pool.Config.{Config}
use thread_pool.Once.{Once}
use thread_pool.Multi.{
  PoolStore, Statics, is_empty, copy_keys, create_pools, close_all, take, with_pools, shut_down,
  drop, set_pools, create, init_with_config,
}
use thread_pool.Multi.Keys.{create_pools-AreKeys, close_all-AreKeys}
use thread_pool.Multi.Sound.{IsSound, with_store-IsSound}
use thread_pool.Multi.Holding.{Holds, same-Holds, unchanged-Holds, stored-Holds}

module _ (c : Channel) (o : Once) where
  pub shut_down-Holds :
      (forced spurious : Bool) (s t : Statics c o)
      → Holds c o s
      → shut_down c o forced spurious s ≡ some t
      → Holds c o t
  unfolding shut_down take as_ref
  shut_down-Holds forced spurious s t h e = elim (Option-cases s.pools.inner) [
    | inl gone ↦ same-Holds c o s t h (ground (arith, e, gone))
    | inr (p, there) ↦ elim (Option-cases (close_all c forced p.store)) [
      | inl waits ↦ same-Holds c o s t h (ground (arith, e, there, waits))
      | inr (store, closed_all) ↦
          let result : (t.pools.inner ≡ s.pools.inner)
              ⊎ (t.pools.inner ≡ some (record p { store = store })) =
            ground (arith, e, there, closed_all) in
          elim result [
            | inl same ↦ same-Holds c o s t h same
            | inr stored_all ↦ λ q at_t.
                let same : record p { store = store } ≡ q = ground (arith, stored_all, at_t) in
                subst (IsSound c) same (
                  with_store-IsSound c p store (h p there)
                    (close_all-AreKeys c forced p.store store (h p there).keys closed_all))
          ]
    ]
  ]

  drop-Holds :
      (spurious : Bool) (p : PoolStore c) (s t : Statics c o)
      → Holds c o s
      → drop c o spurious p s ≡ some t
      → Holds c o t
  unfolding drop
  drop-Holds spurious p s t h e =
      elim (Option-cases (if not s.closing then shut_down c o false spurious s else some s)) [
        | inl panics ↦ absurd (ground (arith, e, panics))
        | inr (u, first) ↦
            let sound : Holds c o u = elim (Bool-cases s.closing) [
              | inl closed ↦ unchanged-Holds c o s u h (ground (arith, first, closed))
              | inr going ↦ shut_down-Holds false spurious s u h (ground (arith, first, going))
            ] in
            let same : u ≡ t = ground (arith, e, first) in subst (Holds c o) same sound
      ]

  set_pools-Holds :
      (spurious : Bool) (p : PoolStore c) (s t : Statics c o)
      → IsSound c p
      → set_pools c o spurious p s ≡ some t
      → Holds c o t
  unfolding set_pools store_set
  set_pools-Holds spurious p s t v e = elim (Option-cases s.pools.inner) [
    | inl gone ↦ stored-Holds c o s t p v (ground (arith, e, gone))
    | inr (old, there) ↦
        drop-Holds spurious old (with_pools c o s p) t
          (stored-Holds c o s (with_pools c o s p) p v refl) (ground (arith, e, there))
  ]

  create-Holds :
      (spurious : Bool) (keys : List (String × ℕ)) (config : Config) (s t : Statics c o)
      → create c o spurious keys config s ≡ some t
      → Holds c o t
  unfolding create
  create-Holds spurious keys config s t e = elim (Option-cases (create_pools c config keys [])) [
    | inl fails ↦ absurd (ground (arith, e, fails))
    | inr (store, made) ↦
        set_pools-Holds spurious
          (record {
            store = store;
            mutating = 0;
            auto_adjust_period = config.refresh_period;
            auto_adjust_handler = none;
            auto_adjust_register = [];
          })
          s t
          (record {
            keys = create_pools-AreKeys c config keys [] store tt made;
            lock = inl refl;
            adjusted = λ some_key. absurd (some_key refl);
          })
          (ground (arith, e, made))
  ]

  pub init-Holds :
      (spurious : Bool) (keys : List (String × ℕ)) (config : Config) (s t : Statics c o)
      → Holds c o s
      → init_with_config c o spurious keys config s ≡ some t
      → Holds c o t
  unfolding init_with_config
  init-Holds spurious keys config s t h e = elim (Bool-cases (is_empty keys)) [
    | inl nothing_asked ↦ unchanged-Holds c o s t h (ground (arith, e, nothing_asked))
    | inr asked ↦
        let entered = record s { once = o.enter s.once } in
        elim (Option-cases (create c o spurious (copy_keys keys []) config entered)) [
          | inl panics ↦ absurd (ground (arith, e, asked, panics))
          | inr (u, made) ↦
              let same : t.pools.inner ≡ u.pools.inner = ground (arith, e, asked, made) in
              same-Holds c o u t (create-Holds spurious (copy_keys keys []) config entered u made)
                same
        ]
  ]

-- ===== src/Multi/Toggling.antt =====
-- src/multi.rs: what holds of the store after a pool changes its mode.
use thread_pool.Prelude.{
  ℕ, ◌≡◌, ◌⊎◌, refl, ap, Bool, true, false, not, ◌&&◌, String, List, some, Option-cases,
  Result-cases, ok, arith, Bool-cases, inl, inr,
}
use thread_pool.Prelude.Maps.{lookup, insert, include, exclude}
use thread_pool.Channel.{Channel}
use thread_pool.Once.{Once}
use thread_pool.Pool.{ThreadPool, toggle_auto_scale}
use thread_pool.Multi.{PoolStore, Statics, is_empty, inner, with_pools}
use thread_pool.Multi.Adjusting.{
  started, start_auto_adjustment, toggle_found, toggle_pool_auto_mode,
}
use thread_pool.Multi.Keys.{AreKeys, put_back-AreKeys}
use thread_pool.Multi.Sound.{IsSound, started-IsSound}
use thread_pool.Multi.Holding.{Holds, inner-some, unchanged-Holds, stored-Holds, stop-Holds}
use thread_pool.Multi.Adjusting.{or_ten_seconds}
use thread_pool.Multi.Adjusting.Periods.{inner-with_pools}
use thread_pool.Worker.Serving.{List-cases}

module _ (c : Channel) (o : Once) where
  -- The start of the adjusting thread, for the first pool in automatic mode.
  first_start-Holds :
      (period : ℕ) (s t : Statics c o) (p : PoolStore c)
      → inner c o s ≡ ok p
      → AreKeys p.store
      → (p.mutating ≡ 0) ⊎ (p.mutating ≡ 1)
      → is_empty p.auto_adjust_register ≡ false
      → start_auto_adjustment c o period s ≡ some t
      → Holds c o t
  unfolding start_auto_adjustment
  first_start-Holds period s t p found keys lock somebody e =
      elim (Option-cases (started c o period p)) [
        | inl waits ↦ absurd (ground (arith, e, found, somebody, waits))
        | inr (q, first) ↦
            stored-Holds c o s t q (started-IsSound c o period p keys lock q first)
              (ground (arith, e, found, somebody, first))
      ]

  -- The store with a pool put back, and another register.
  abbrev registered : String → Bool → ThreadPool c → List String → PoolStore c → PoolStore c
  registered key auto_adjust pool register p = record p {
    store = insert key (toggle_auto_scale c auto_adjust pool) p.store;
    auto_adjust_register = register;
  }

  toggled_keys :
      (key : String) (auto_adjust : Bool) (old : ThreadPool c) (p : PoolStore c)
      → lookup key p.store ≡ some old
      → AreKeys p.store
      → AreKeys (insert key (toggle_auto_scale c auto_adjust old) p.store)
  toggled_keys key auto_adjust old p there all =
      put_back-AreKeys c key old (toggle_auto_scale c auto_adjust old) p.store there all

  toggle_on-Holds :
      (key : String) (old : ThreadPool c) (s t : Statics c o) (p : PoolStore c)
      → inner c o s ≡ ok p
      → IsSound c p
      → lookup key p.store ≡ some old
      → toggle_found c o key true old p s ≡ some t
      → Holds c o t
  unfolding toggle_found include
  toggle_on-Holds key old s t p found v there e =
      let q = registered key true old (include key p.auto_adjust_register) p in
      let keys = toggled_keys key true old p there v.keys in
      elim (List-cases p.auto_adjust_register) [
        | inl nobody ↦
            first_start-Holds (or_ten_seconds c o p.auto_adjust_period) (with_pools c o s q) t q
              (inner-with_pools c o s p q found) keys v.lock (ground (arith, nobody))
              (ground (arith, e, nobody))
        | inr (k, ks, somebody) ↦
            stored-Holds c o s t q
              (record {
                keys = keys;
                lock = v.lock;
                adjusted = λ some_key. v.adjusted (λ nobody. ground (arith, somebody, nobody));
              })
              (ground (arith, e, somebody))
      ]

  toggle_off-Holds :
      (key : String) (old : ThreadPool c) (s t : Statics c o) (p : PoolStore c)
      → IsSound c p
      → lookup key p.store ≡ some old
      → toggle_found c o key false old p s ≡ some t
      → Holds c o t
  unfolding toggle_found exclude
  toggle_off-Holds key old s t p v there e =
      let register = exclude key p.auto_adjust_register in
      let q = registered key false old register p in
      let sound : IsSound c q = record {
        keys = toggled_keys key false old p there v.keys;
        lock = v.lock;
        adjusted = λ some_key. v.adjusted (λ nobody. some_key (ap (exclude key) nobody));
      } in
      elim (Bool-cases (is_empty register)) [
        | inl nobody ↦
            stop-Holds c o (with_pools c o s q) t
              (stored-Holds c o s (with_pools c o s q) q sound refl) (ground (arith, e, nobody))
        | inr somebody ↦ stored-Holds c o s t q sound (ground (arith, e, somebody))
      ]

  pub toggle-Holds :
      (key : String) (auto_adjust : Bool) (s t : Statics c o)
      → Holds c o s
      → toggle_pool_auto_mode c o key auto_adjust s ≡ some t
      → Holds c o t
  unfolding toggle_pool_auto_mode
  toggle-Holds key auto_adjust s t h e = elim (Result-cases (inner c o s)) [
    | inr (kind, refused) ↦ unchanged-Holds c o s t h (ground (arith, e, refused))
    | inl (p, found) ↦ elim (Option-cases (lookup key p.store)) [
      | inl gone ↦ unchanged-Holds c o s t h (ground (arith, e, found, gone))
      | inr (old, there) ↦ elim (Bool-cases (is_empty p.auto_adjust_register && not auto_adjust)) [
        | inl nothing_to_do ↦
            unchanged-Holds c o s t h (ground (arith, e, found, there, nothing_to_do))
        | inr go ↦
            let v = h p (inner-some c o s p found) in
            elim (Bool-cases auto_adjust) [
              | inl on ↦
                  toggle_on-Holds key old s t p found v there
                    (ground (arith, e, found, there, go, on))
              | inr off ↦
                  toggle_off-Holds key old s t p v there (ground (arith, e, found, there, go, off))
            ]
      ]
    ]
  ]

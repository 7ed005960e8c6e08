-- ===== src/Multi/Holding.antt =====
-- src/multi.rs: what holds of the store after the calls that change and adjust its pools.
use thread_pool.Prelude.{
  ℕ, ◌≡◌, sym, subst, ◌∙◌, ◌||◌, String, Option, none, some, Option-cases, Result-cases, ok, err,
  ◌==◌, arith, Bool-cases, inl, inr,
}
use thread_pool.Model.{as_ref}
use thread_pool.Channel.{Channel}
use thread_pool.Once.{Once}
use thread_pool.Multi.{PoolStore, Statics, is_empty, inner, with_pools}
use thread_pool.Multi.Changing.{take_out, put_in, remove_pool, add_pool}
use thread_pool.Multi.Adjusting.{
  stopped, started, stop_auto_adjustment, start_auto_adjustment, reset_auto_adjustment_period,
}
use thread_pool.Prelude.Maps.{is_empty_text}
use thread_pool.Multi.Sound.{
  IsSound, take_out-IsSound, put_in-IsSound, stopped-IsSound, started-IsSound,
}

module _ (c : Channel) (o : Once) where
  -- The store of the statics, if it is there, is sound.
  abbrev pub Holds : Statics c o → Type 0
  Holds s = (p : PoolStore c) → s.pools.inner ≡ some p → IsSound c p

  pub inner-some : (s : Statics c o) (p : PoolStore c) → inner c o s ≡ ok p → s.pools.inner ≡ some p
  unfolding inner as_ref
  inner-some s p e = ground (arith, e)

  pub same-Holds : (s t : Statics c o) → Holds s → t.pools.inner ≡ s.pools.inner → Holds t
  same-Holds s t h same p e = h p (sym same ∙ e)

  pub unchanged-Holds : (s t : Statics c o) → Holds s → some s ≡ some t → Holds t
  unchanged-Holds s t h e = let same : s ≡ t = ground (arith, e) in subst Holds same h

  pub stored-Holds :
      (s t : Statics c o) (q : PoolStore c)
      → IsSound c q
      → some (with_pools c o s q) ≡ some t
      → Holds t
  stored-Holds s t q v e p there =
      let same : q ≡ p = ground (arith, e, there) in subst (IsSound c) same v

  abbrev stored : Statics c o → Option (PoolStore c) → Option (Statics c o)
  stored s none = none
  stored s (some p) = some (with_pools c o s p)

  -- A call that changes the store, if it can be reached.
  pub reached-Holds :
      (f : PoolStore c → Option (PoolStore c)) (s t : Statics c o)
      → ((p q : PoolStore c) → IsSound c p → f p ≡ some q → IsSound c q)
      → Holds s
      → (elim (inner c o s) [ err e ↦ some s | ok p ↦ stored s (f p) ]) ≡ some t
      → Holds t
  reached-Holds f s t preserves h e = elim (Result-cases (inner c o s)) [
    | inr (kind, refused) ↦ unchanged-Holds s t h (ground (arith, e, refused))
    | inl (p, found) ↦ elim (Option-cases (f p)) [
      | inl fails ↦ absurd (ground (arith, e, found, fails))
      | inr (q, made) ↦
          stored-Holds s t q (preserves p q (h p (inner-some s p found)) made)
            (ground (arith, e, found, made))
    ]
  ]

  pub remove_pool-Holds :
      (key : String) (s t : Statics c o) → Holds s → remove_pool c o key s ≡ some t → Holds t
  unfolding remove_pool
  remove_pool-Holds key s t h e = elim (Bool-cases (is_empty_text key)) [
    | inl unnamed ↦ unchanged-Holds s t h (ground (arith, e, unnamed))
    | inr named ↦
        reached-Holds (take_out c key) s t (λ p q v. take_out-IsSound c o key p v q) h
          (ground (arith, e, named))
  ]

  pub add_pool-Holds :
      (key : String) (size : ℕ) (s t : Statics c o)
      → Holds s
      → add_pool c o key size s ≡ some t
      → Holds t
  unfolding add_pool
  add_pool-Holds key size s t h e = elim (Bool-cases (is_empty_text key || size == 0)) [
    | inl refused ↦ unchanged-Holds s t h (ground (arith, e, refused))
    | inr asked ↦
        reached-Holds (put_in c key size) s t
          (λ p q v. put_in-IsSound c o key size p (ground (arith, asked)) v q) h
          (ground (arith, e, asked))
  ]

  pub stop-Holds : (s t : Statics c o) → Holds s → stop_auto_adjustment c o s ≡ some t → Holds t
  unfolding stop_auto_adjustment
  stop-Holds s t h e =
      reached-Holds (stopped c o) s t (λ p q v. stopped-IsSound c o p v.keys v.lock q) h
        (ground (arith, e))

  pub start-Holds :
      (period : ℕ) (s t : Statics c o)
      → Holds s
      → start_auto_adjustment c o period s ≡ some t
      → Holds t
  unfolding start_auto_adjustment
  start-Holds period s t h e = elim (Result-cases (inner c o s)) [
    | inr (kind, refused) ↦ unchanged-Holds s t h (ground (arith, e, refused))
    | inl (p, found) ↦ elim (Bool-cases (is_empty p.auto_adjust_register)) [
      | inl nobody ↦ unchanged-Holds s t h (ground (arith, e, found, nobody))
      | inr somebody ↦
          reached-Holds (started c o period) s t
            (λ r q v. started-IsSound c o period r v.keys v.lock q) h
            (ground (arith, e, found, somebody))
    ]
  ]

  pub reset-Holds :
      (period : Option ℕ) (s t : Statics c o)
      → Holds s
      → reset_auto_adjustment_period c o period s ≡ some t
      → Holds t
  unfolding reset_auto_adjustment_period
  reset-Holds period s t h e = elim (Option-cases (stop_auto_adjustment c o s)) [
    | inl waits ↦ absurd (ground (arith, e, waits))
    | inr (u, first) ↦
        let sound = stop-Holds s u h first in
        elim (Option-cases period) [
          | inl off ↦ unchanged-Holds u t sound (ground (arith, e, first, off))
          | inr (actual, on) ↦ start-Holds actual u t sound (ground (arith, e, first, on))
        ]
  ]

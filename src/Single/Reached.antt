-- ===== src/Single/Reached.antt =====
-- src/single.rs: what any calls keep of the pool, in any order.
use thread_pool.Prelude.{
  ℕ, ◌≡◌, Bool, true, not, List, [], ◌∷◌, Option, none, some, Option-cases, Result-cases,
  if◌then◌else◌, arith, Bool-cases, inl, inr,
}
use thread_pool.Channel.{Channel}
use thread_pool.Once.{Once}
use thread_pool.Pool.{toggle_auto_scale}
use thread_pool.Single.{
  Pool, Statics, start_auto_adjustment, inner, toggle_auto_mode, stop_auto_adjustment,
  update_auto_adjustment_mode, reset_auto_adjustment_period,
}
use thread_pool.Single.Holding.{
  IsTuned, Holds, same-Holds, inner-some, pooled-Holds, shut_down-Holds, run-Holds, trigger-Holds,
}
use thread_pool.Single.Creating.{started_runs, init-Holds, resize-Holds}
use thread_pool.Single.Closed.{
  Call, inits, runs, resizes, closes, updates, resets, triggers, perform, perform_all,
}

module _ (c : Channel) (o : Once) where
  -- A tuned pool with an adjusting thread cannot be stopped, and one without it stays as it is.
  stop_lem :
      (p q : Pool c)
      → IsTuned c p
      → stop_auto_adjustment c o p ≡ some q
      → (q ≡ p) × (p.auto_adjust_handler ≡ none)
  unfolding stop_auto_adjustment
  stop_lem p q v e = elim (Option-cases p.auto_adjust_handler) [
    | inl nobody ↦ (ground arith, nobody)
    | inr (a, there) ↦
        let (auto, period, still) = v.adjusts a there in absurd (ground (arith, there, still))
  ]

  toggled-IsTuned :
      (enabled : Bool) (p : Pool c)
      → IsTuned c p
      → p.auto_adjust_handler ≡ none
      → IsTuned c (toggle_auto_mode c o enabled p)
  unfolding toggle_auto_mode toggle_auto_scale
  toggled-IsTuned enabled p v nobody = record {
    scales = ground (arith, v.scales);
    adjusts = λ a handler. absurd (ground (arith, handler, nobody));
  }

  toggled_on : (p : Pool c) → (toggle_auto_mode c o true p).auto_mode ≡ true
  unfolding toggle_auto_mode
  toggled_on p = ground arith

  restarted-IsTuned :
      (period : ℕ) (p : Pool c)
      → IsTuned c p
      → p.auto_adjust_handler ≡ none
      → IsTuned c (record (toggle_auto_mode c o true p) {
        auto_adjust_handler = some (start_auto_adjustment period);
      })
  restarted-IsTuned period p v nobody =
      let auto : (toggle_auto_mode c o true p).auto_mode ≡ true = toggled_on p in
      record {
        scales = (toggled-IsTuned true p v nobody).scales;
        adjusts = λ a handler. ground (arith, handler, auto, started_runs c o period);
      }

  update-Holds :
      (enabled : Bool) (s t : Statics c o)
      → Holds c o s
      → update_auto_adjustment_mode c o enabled s ≡ some t
      → Holds c o t
  unfolding update_auto_adjustment_mode
  update-Holds enabled s t h e = elim (Result-cases (inner c o s)) [
    | inr (kind, refused) ↦ same-Holds c o s t (ground arith) h
    | inl (p, found) ↦
        let v = h p (inner-some c o s p found) in
        elim (Bool-cases (if p.auto_mode then enabled else not enabled)) [
          | inl already ↦ same-Holds c o s t (ground arith) h
          | inr changes ↦ elim (Option-cases p.auto_adjust_handler) [
            | inl nobody ↦
                pooled-Holds c o s t (toggle_auto_mode c o enabled p) (ground arith)
                  (toggled-IsTuned enabled p v nobody)
            | inr (a, there) ↦ elim (Option-cases (stop_auto_adjustment c o p)) [
              | inl waits ↦ absurd (ground (arith, v.adjusts a there))
              | inr (q, stops) ↦ absurd (ground (arith, (stop_lem p q v stops).1))
            ]
          ]
        ]
  ]

  reset-Holds :
      (period : Option ℕ) (s t : Statics c o)
      → Holds c o s
      → reset_auto_adjustment_period c o period s ≡ some t
      → Holds c o t
  unfolding reset_auto_adjustment_period
  reset-Holds period s t h e = elim (Result-cases (inner c o s)) [
    | inr (kind, refused) ↦ same-Holds c o s t (ground arith) h
    | inl (p, found) ↦ elim (Option-cases (stop_auto_adjustment c o p)) [
      | inl waits ↦ absurd (ground arith)
      | inr (q, stops) ↦
          let v = h p (inner-some c o s p found) in
          let (same, nobody) = stop_lem p q v stops in
          elim (Option-cases period) [
            | inl by_hand ↦ pooled-Holds c o s t p (ground arith) v
            | inr (length, auto) ↦
                let restarted = record (toggle_auto_mode c o true p) {
                  auto_adjust_handler = some (start_auto_adjustment length);
                } in
                pooled-Holds c o s t restarted (ground arith) (restarted-IsTuned length p v nobody)
          ]
    ]
  ]

  perform-Holds :
      (call : Call) (s t : Statics c o) → Holds c o s → perform c o call s ≡ some t → Holds c o t
  unfolding perform
  perform-Holds (inits spurious size config) s t h e = init-Holds c o spurious size config s t h e
  perform-Holds (runs f) s t h e = run-Holds c o f s t h e
  perform-Holds (resizes spurious size) s t h e = resize-Holds c o spurious size s t h e
  perform-Holds (closes forced spurious) s t h e = shut_down-Holds c o forced spurious s t h e
  perform-Holds (updates enabled) s t h e = update-Holds enabled s t h e
  perform-Holds (resets period) s t h e = reset-Holds period s t h e
  perform-Holds triggers s t h e = trigger-Holds c o s t h e

  -- If the static pool is tuned, or not there yet, then it is tuned, if it is there, after any calls
  -- of the module that all return, in any order: it scales itself exactly in automatic mode, and an
  -- adjusting thread is there in that mode alone, has a period of a second at the least, and has not
  -- ended.
  pub perform_all-IsTuned :
      (calls : List Call) (s t : Statics c o) (p : Pool c)
      → Holds c o s
      → perform_all c o calls s ≡ some t
      → t.pool.inner ≡ some p
      → IsTuned c p
  unfolding perform_all
  perform_all-IsTuned [] s t p h e there = same-Holds c o s t (ground arith) h p there
  perform_all-IsTuned (call ∷ calls) s t p h e there = elim (Option-cases (perform c o call s)) [
    | inl fails ↦ absurd (ground (arith, e, fails))
    | inr (u, first) ↦
        perform_all-IsTuned calls u t p (perform-Holds call s u h first) (ground (arith, e, first))
          there
  ]

-- ===== src/Single/Closed.antt =====
-- src/single.rs: closing the pool, and what is possible afterwards.
use thread_pool.Prelude.{
  ℕ, ◌≡◌, Bool, true, false, List, [], ◌∷◌, Option, none, some, Option-cases, ok, err,
  if◌then◌else◌, ◌==◌, arith, Bool-cases, inl, inr,
}
use thread_pool.Model.{Job, permission_denied, as_ref}
use thread_pool.Channel.{Channel}
use thread_pool.Config
use thread_pool.Config.{Config}
use thread_pool.Once.{Once, OnceState}
use thread_pool.Single.{
  Pool, Statics, close_store, inner, take, shut_down, close, create, set_pool, drop,
  init_with_config, run, resize, update_auto_adjustment_mode, reset_auto_adjustment_period,
  trigger_auto_adjustment,
}

-- A call of the module, or a round of its adjusting thread.
pub data Call : Type 0 where
  inits : (spurious : Bool) → ℕ → Config → Call
  runs : Job → Call
  resizes : (spurious : Bool) → ℕ → Call
  closes : (forced spurious : Bool) → Call
  updates : (enabled : Bool) → Call
  resets : (period : Option ℕ) → Call
  triggers : Call

module _ (c : Channel) (o : Once) where
  unfoldable pub perform : Call → Statics c o → Option (Statics c o)
  perform (inits spurious size config) s = init_with_config c o spurious size config s
  perform (runs f) s = run c o f s
  perform (resizes spurious size) s = resize c o spurious size s
  perform (closes forced spurious) s = shut_down c o forced spurious s
  perform (updates enabled) s = update_auto_adjustment_mode c o enabled s
  perform (resets period) s = reset_auto_adjustment_period c o period s
  perform triggers s = trigger_auto_adjustment c o s

  unfoldable pub perform_all : List Call → Statics c o → Option (Statics c o)
  unfolding perform
  perform_all [] s = some s
  perform_all (call ∷ calls) s = elim (perform call s) [
    | none ↦ none
    | some t ↦ perform_all calls t
  ]

  shut_down-closing :
      (forced spurious : Bool) (s t : Statics c o)
      → s.closing ≡ true
      → shut_down c o forced spurious s ≡ some t
      → t.closing ≡ true
  unfolding shut_down take
  shut_down-closing forced spurious s t closed e = ground arith

  shut_down_closes :
      (forced : Bool) (s t : Statics c o) (p : Pool c)
      → o.state s.once ≡ OnceState.done
      → inner c o s ≡ ok p
      → shut_down c o forced false s ≡ some t
      → t.closing ≡ true
  unfolding shut_down take inner as_ref
  shut_down_closes forced s t p started open_still e = elim (Bool-cases s.closing) [
    | inl closed ↦ absurd (ground arith)
    | inr going ↦ elim (Option-cases s.pool.inner) [
      | inl gone ↦ absurd (ground arith)
      | inr (q, there) ↦ elim (Option-cases (close_store c o forced q.store)) [
        | inl waits ↦ absurd (ground (arith, e))
        | inr (store, shut) ↦ ground arith
      ]
    ]
  ]

  create-closing :
      (spurious : Bool) (size : ℕ) (config : Config) (s t : Statics c o)
      → s.closing ≡ true
      → create c o spurious size config s ≡ some t
      → t.closing ≡ true
  unfolding create set_pool drop
  create-closing spurious size config s t closed e = ground arith

  init-closing :
      (spurious : Bool) (size : ℕ) (config : Config) (s t : Statics c o)
      → s.closing ≡ true
      → init_with_config c o spurious size config s ≡ some t
      → t.closing ≡ true
  unfolding init_with_config
  init-closing spurious size config s t closed e =
      let actual = if size == 0 then 1 else size in
      let entered = record s { once = o.enter s.once } in
      elim (Option-cases (create c o spurious actual config entered)) [
        | inl panics ↦ ground arith
        | inr (u, made) ↦
            let kept = create-closing spurious actual config entered u closed made in ground arith
      ]

  resize-closing :
      (spurious : Bool) (size : ℕ) (s t : Statics c o)
      → s.closing ≡ true
      → resize c o spurious size s ≡ some t
      → t.closing ≡ true
  unfolding resize close inner
  resize-closing spurious size s t closed e =
      elim (Option-cases (if size == 0 then close c o spurious s else some s)) [
        | inl panics ↦ ground arith
        | inr (u, first) ↦
            let kept : u.closing ≡ true = elim (Bool-cases (size == 0)) [
              | inl none_asked ↦ shut_down-closing false spurious s u closed (ground arith)
              | inr more ↦ ground arith
            ] in
            create-closing spurious size Config.new u t kept (ground arith)
      ]

  perform-closing :
      (call : Call) (s t : Statics c o)
      → s.closing ≡ true
      → perform call s ≡ some t
      → t.closing ≡ true
  unfolding perform init_with_config run resize update_auto_adjustment_mode
      reset_auto_adjustment_period trigger_auto_adjustment inner
  perform-closing (inits spurious size config) s t closed e =
      init-closing spurious size config s t closed e
  perform-closing (runs f) s t closed e = ground arith
  perform-closing (resizes spurious size) s t closed e = resize-closing spurious size s t closed e
  perform-closing (closes forced spurious) s t closed e =
      shut_down-closing forced spurious s t closed e
  perform-closing (updates enabled) s t closed e = ground arith
  perform-closing (resets period) s t closed e = ground arith
  perform-closing triggers s t closed e = ground arith

  all-closing :
      (calls : List Call) (s t : Statics c o)
      → s.closing ≡ true
      → perform_all calls s ≡ some t
      → t.closing ≡ true
  unfolding perform_all
  all-closing [] s t closed e = ground arith
  all-closing (call ∷ calls) s t closed e = elim (Option-cases (perform call s)) [
    | inl panics ↦ absurd (ground arith)
    | inr (u, first) ↦ all-closing calls u t (perform-closing call s u closed first) (ground arith)
  ]

  -- Closing is for good. Once a pool that was there and initialized has been closed, by a call
  -- whose exchange did not fail for no reason, then after any further calls that return,
  -- initializations and changes of the size among them, the pool is out of reach, and `run` starts
  -- a thread for each job of its own.
  pub closed_for_good :
      (forced : Bool) (calls : List Call) (f : Job) (s t u : Statics c o) (p : Pool c)
      → o.state s.once ≡ OnceState.done
      → inner c o s ≡ ok p
      → shut_down c o forced false s ≡ some t
      → perform_all calls t ≡ some u
      → (inner c o u ≡ err permission_denied)
        × (run c o f u ≡ some (record u { threads = f ∷ u.threads }))
  unfolding inner run
  closed_for_good forced calls f s t u p started open_still shut later =
      let closed : t.closing ≡ true = shut_down_closes forced s t p started open_still shut in
      let still = all-closing calls t u closed later in (ground arith, ground arith)

  -- A call of `close` or `force_close` whose weak exchange fails for no reason does nothing: the
  -- pool goes on, and the caller is not told.
  pub close_may_miss :
      (forced : Bool) (s : Statics c o)
      → o.state s.once ≡ OnceState.done
      → shut_down c o forced true s ≡ some s
  unfolding shut_down take
  close_may_miss forced s started = ground arith

-- ===== src/Single/Holding.antt =====
-- src/single.rs: what each call keeps of the pool.
use thread_pool.Prelude.{
  ◌≤◌, ◌≡◌, sym, subst, ◌∙◌, Bool, true, false, some, Option-cases, Result-cases, ok, arith,
  Bool-cases, ◌⊎◌, inl, inr,
}
use thread_pool.Model.{Job, as_ref}
use thread_pool.Channel.{Channel}
use thread_pool.Once.{Once}
use thread_pool.Pool.{ThreadPool}
use thread_pool.Pool.Exec
use thread_pool.Pool.Resizing
use thread_pool.Pool.Scaling.{exec-SameScale, auto_adjust-SameScale, shut_down-SameScale}
use thread_pool.Pool.Life
use thread_pool.Single.{
  one_second, Adjuster, Pool, Statics, close_store, inner, take, shut_down, run,
  trigger_auto_adjustment,
}

module _ (c : Channel) where
  -- The pool scales itself exactly in automatic mode; an adjusting thread is there in that mode
  -- alone, with a period of a second at the least, and has not ended.
  pub record IsTuned (p : Pool c) : Type 0 where
    pub scales : p.store.auto_scale ≡ p.auto_mode
    pub adjusts :
        (a : Adjuster)
        → p.auto_adjust_handler ≡ some a
        → (p.auto_mode ≡ true) × (one_second ≤ a.period) × (a.panicked ≡ false)

  pub stored-IsTuned :
      (p : Pool c) (store : ThreadPool c)
      → IsTuned p
      → store.auto_scale ≡ p.store.auto_scale
      → IsTuned (record p { store = store })
  stored-IsTuned p store v same = record { scales = same ∙ v.scales; adjusts = v.adjusts }

module _ (c : Channel) (o : Once) where
  -- The pool is tuned, if it is there.
  abbrev pub Holds : Statics c o → Type 0
  Holds s = (p : Pool c) → s.pool.inner ≡ some p → IsTuned c p

  pub same-Holds : (s t : Statics c o) → s.pool.inner ≡ t.pool.inner → Holds s → Holds t
  same-Holds s t e h p there = h p (e ∙ there)

  pub inner-some : (s : Statics c o) (p : Pool c) → inner c o s ≡ ok p → s.pool.inner ≡ some p
  unfolding inner as_ref
  inner-some s p e = ground arith

  pub pooled-Holds :
      (s t : Statics c o) (p : Pool c) → t.pool.inner ≡ some p → IsTuned c p → Holds t
  pooled-Holds s t p there v q found =
      let same : p ≡ q = ground (arith, there, found) in subst (IsTuned c) same v

  close_store-SameScale :
      (forced : Bool) (p q : ThreadPool c)
      → close_store c o forced p ≡ some q
      → q.auto_scale ≡ p.auto_scale
  unfolding Life.close Life.force_close
  close_store-SameScale forced p q e = elim (Bool-cases forced) [
    | inl by_force ↦ shut_down-SameScale c true p q (ground arith)
    | inr gently ↦ shut_down-SameScale c false p q (ground arith)
  ]

  -- The pool is as it was, or it has been closed.
  shut_down_pool :
      (forced spurious : Bool) (s t : Statics c o) (p : Pool c)
      → s.pool.inner ≡ some p
      → shut_down c o forced spurious s ≡ some t
      → (t.pool.inner ≡ some p)
        ⊎ ((store : ThreadPool c) × (close_store c o forced p.store ≡ some store)
            × (t.pool.inner ≡ some (record p { store = store })))
  unfolding shut_down take as_ref
  shut_down_pool forced spurious s t p there e =
      elim (Option-cases (close_store c o forced p.store)) [
        | inl waits ↦ inl (ground (arith, waits))
        | inr (store, shut) ↦
            let either : (t.pool.inner ≡ some p)
                ⊎ (t.pool.inner ≡ some (record p { store = store })) =
              ground (arith, shut, there) in
            elim either [ inl same ↦ inl same | inr closed ↦ inr (store, shut, closed) ]
      ]

  pub shut_down-Holds :
      (forced spurious : Bool) (s t : Statics c o)
      → Holds s
      → shut_down c o forced spurious s ≡ some t
      → Holds t
  unfolding shut_down take as_ref
  shut_down-Holds forced spurious s t h e = elim (Option-cases s.pool.inner) [
    | inl gone ↦ same-Holds s t (ground arith) h
    | inr (p, there) ↦ elim (shut_down_pool forced spurious s t p there e) [
      | inl same ↦ same-Holds s t (there ∙ sym same) h
      | inr (store, shut, closed) ↦
          pooled-Holds s t (record p { store = store }) closed
            (stored-IsTuned c p store (h p there) (close_store-SameScale forced p.store store shut))
    ]
  ]

  pub run-Holds : (f : Job) (s t : Statics c o) → Holds s → run c o f s ≡ some t → Holds t
  unfolding run
  run-Holds f s t h e = elim (Result-cases (inner c o s)) [
    | inr (kind, refused) ↦ same-Holds s t (ground arith) h
    | inl (p, found) ↦ elim (Option-cases (Exec.exec c f false p.store)) [
      | inl waits ↦ absurd (ground arith)
      | inr ((r, store), done) ↦
          pooled-Holds s t (record p { store = store }) (ground arith)
            (stored-IsTuned c p store (h p (inner-some s p found))
              (exec-SameScale c f false p.store (r, store) done))
    ]
  ]

  pub trigger-Holds :
      (s t : Statics c o) → Holds s → trigger_auto_adjustment c o s ≡ some t → Holds t
  unfolding trigger_auto_adjustment
  trigger-Holds s t h e = elim (Result-cases (inner c o s)) [
    | inr (kind, refused) ↦ same-Holds s t (ground arith) h
    | inl (p, found) ↦ elim (Option-cases (Resizing.auto_adjust c p.store)) [
      | inl waits ↦ absurd (ground arith)
      | inr (store, adjusted) ↦
          pooled-Holds s t (record p { store = store }) (ground arith)
            (stored-IsTuned c p store (h p (inner-some s p found))
              (auto_adjust-SameScale c p.store store adjusted))
    ]
  ]

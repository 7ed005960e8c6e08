-- ===== src/Multi/Threads/Alone.antt =====
-- src/multi.rs: a thread of `remove_pool` or `add_pool` that no other one disturbs.
use thread_pool.Prelude.{
  ℕ, String, ◌≡◌, refl, ap, ◌∙◌, Bool, false, List, [], ◌∷◌, Option, none, some, ◌==◌, ◌⊎◌,
  Bool-cases, Option-cases, inl, inr, arith,
}
use thread_pool.Prelude.Maps.{lookup, insert, remove}
use thread_pool.Model.Backoff.{minus_one}
use thread_pool.Channel.{Channel}
use thread_pool.Pool.{new}
use thread_pool.Pool.Resizing
use thread_pool.Multi.{PoolStore, reset_lock}
use thread_pool.Multi.Changing.{close_and_drop, replaced_ends, take_out, put_new, put_in}
use thread_pool.Multi.Store.{free_for}
use thread_pool.Multi.Threads.{
  direction, Task, removes, adds, arriving, spinning, inside, leaving, finished, Threads, stands,
  arrive, attempt, take_away, put_pool, put_or_resize, change, leave, act, acts,
}

pub Task-cases :
    (t : Task)
    → ((key : String) × (t ≡ removes key)) ⊎ ((key : String) × (size : ℕ) × (t ≡ adds key size))
Task-cases (removes key) = inl (key, refl)
Task-cases (adds key size) = inr (key, size, refl)

module _ (c : Channel) where
  -- The body that the thread of a call runs, on its own.
  abbrev pub body : Task → PoolStore c → Option (PoolStore c)
  body (removes key) p = take_out c key p
  body (adds key size) p = put_in c key size p

  -- Both fail, or both leave the same pools and the same lock and the thread is at its end.
  abbrev pub Agrees : ℕ → Option (Threads c) → Option (PoolStore c) → Type 0
  Agrees i none none = Unit
  Agrees i (some t) (some q) = (t.cell ≡ q.mutating) × (t.store ≡ q.store) × (t.place i ≡ finished)
  Agrees i none (some q) = ⊥
  Agrees i (some t) none = ⊥

  -- After its load, a thread spins on a lock that was free.
  arrives :
      (i : ℕ) (s : Threads c)
      → s.cell ≡ 0
      → ((arrive c i s).place i ≡ spinning) × ((arrive c i s).cell ≡ 0)
  unfolding arrive
  arrives i s free = elim (Task-cases (s.task i)) [
    | inl (key, e) ↦ ground arith
    | inr (key, size, e) ↦ ground arith
  ]

  -- The two steps up to the change.
  enters :
      (i : ℕ) (s : Threads c)
      → s.place i ≡ arriving
      → s.cell ≡ 0
      → let t = attempt c i false (arrive c i s) in
        (acts c ((i, false) ∷ (i, false) ∷ []) s ≡ some t)
        × (t.place i ≡ inside)
        × (t.cell ≡ direction (s.task i))
        × (t.store ≡ s.store)
        × (t.task i ≡ s.task i)
  unfolding acts act arrive attempt
  enters i s starts free =
      let first = arrives i s free in
      (
        ground (arith, first),
        ground (arith, first),
        ground (arith, first),
        ground (arith, first),
        ground (arith, first),
      )

  agree :
      (i : ℕ) (o : Option (Threads c)) (r : Option (PoolStore c)) (t : Threads c) (q : PoolStore c)
      → o ≡ some t
      → r ≡ some q
      → t.cell ≡ q.mutating
      → t.store ≡ q.store
      → t.place i ≡ finished
      → Agrees i o r
  agree i o r t q e f cell store place = rw (e, f) (cell, store, place)

  both_fail :
      (i : ℕ) (o : Option (Threads c)) (r : Option (PoolStore c))
      → o ≡ none
      → r ≡ none
      → Agrees i o r
  both_fail i o r e f = rw (e, f) tt

  acts_after :
      (i : ℕ) (s t : Threads c) (schedule : List (ℕ × Bool))
      → acts c ((i, false) ∷ (i, false) ∷ []) s ≡ some t
      → acts c ((i, false) ∷ (i, false) ∷ schedule) s ≡ acts c schedule t
  unfolding acts
  acts_after i s t schedule e = elim (Option-cases (act c i false s)) [
    | inl fails ↦ absurd (ground arith)
    | inr (u, first) ↦ elim (Option-cases (act c i false u)) [
      | inl fails ↦ absurd (ground arith)
      | inr (v, second) ↦ ground arith
    ]
  ]

  removes_agree :
      (i : ℕ) (key : String) (t : Threads c) (p : PoolStore c)
      → t.place i ≡ inside
      → t.task i ≡ removes key
      → p.mutating ≡ 0
      → t.store ≡ p.store
      → Agrees i (acts c ((i, false) ∷ (i, false) ∷ []) t) (take_out c key p)
  unfolding acts act change take_away leave take_out reset_lock
  removes_agree i key t p there task free same =
      let taken = free_for c minus_one p refl free in
      elim (Option-cases (lookup key p.store)) [
        | inl absent ↦
            agree i _ _ (leave c i (stands c i leaving t)) (record p { mutating = 0 })
              (ground (arith, taken)) (ground (arith, taken)) refl same (ground arith)
        | inr (pool, present) ↦ elim (Bool-cases (close_and_drop c pool)) [
          | inl ends ↦
              agree i _ _ (leave c i (stands c i leaving (record t { store = remove key t.store })))
                (record p { mutating = 0; store = remove key p.store }) (ground (arith, taken))
                (ground (arith, taken)) refl (ap (remove key) same) (ground arith)
          | inr stuck ↦ both_fail i _ _ (ground (arith, taken)) (ground (arith, taken))
        ]
      ]

  new-Agrees :
      (i : ℕ) (key : String) (size : ℕ) (t : Threads c) (p : PoolStore c)
      → t.store ≡ p.store
      → Agrees i
          (elim (put_pool c i key size t) [ none ↦ none | some u ↦ acts c ((i, false) ∷ []) u ])
          (put_new c key size p)
  unfolding acts act put_pool leave put_new reset_lock
  new-Agrees i key size t p same = elim (Option-cases (new c size)) [
    | inl fails ↦ both_fail i _ _ (ground arith) (ground arith)
    | inr (pool, made) ↦ elim (Bool-cases (replaced_ends c (lookup key p.store))) [
      | inl ends ↦
          agree i _ _
            (leave c i (stands c i leaving (record t { store = insert key pool t.store })))
            (record p { mutating = 0; store = insert key pool p.store }) (ground arith)
            (ground arith) refl (ap (insert key pool) same) (ground arith)
      | inr stuck ↦ both_fail i _ _ (ground arith) (ground arith)
    ]
  ]

  -- The branches that put in a new pool.
  both_new :
      (i : ℕ) (key : String) (size : ℕ) (t : Threads c) (p : PoolStore c)
      → t.store ≡ p.store
      → act c i false t ≡ put_pool c i key size t
      → put_in c key size p ≡ put_new c key size (record p { mutating = 1 })
      → Agrees i (acts c ((i, false) ∷ (i, false) ∷ []) t) (put_in c key size p)
  unfolding acts
  both_new i key size t p same first second =
      let steps : acts c ((i, false) ∷ (i, false) ∷ []) t
          ≡ elim (put_pool c i key size t) [ none ↦ none | some u ↦ acts c ((i, false) ∷ []) u ] =
        ap
          (λ (o : Option (Threads c)). elim o [ none ↦ none | some u ↦ acts c ((i, false) ∷ []) u ])
          first in
      rw (steps, second) (new-Agrees i key size t (record p { mutating = 1 }) same)

  adds_agree :
      (i : ℕ) (key : String) (size : ℕ) (t : Threads c) (p : PoolStore c)
      → t.place i ≡ inside
      → t.task i ≡ adds key size
      → t.cell ≡ 1
      → p.mutating ≡ 0
      → t.store ≡ p.store
      → Agrees i (acts c ((i, false) ∷ (i, false) ∷ []) t) (put_in c key size p)
  unfolding acts act change put_or_resize put_in
  adds_agree i key size t p there task held free same =
      let taken = free_for c 1 p refl free in
      let locked = record p { mutating = 1 } in
      elim (Option-cases (lookup key p.store)) [
        | inl absent ↦ both_new i key size t p same (ground arith) (ground (arith, taken))
        | inr (pool, present) ↦ elim (Bool-cases (Resizing.get_size c pool == size)) [
          | inl same_size ↦ both_new i key size t p same (ground arith) (ground (arith, taken))
          | inr differs ↦ elim (Option-cases (Resizing.resize c size pool)) [
            | inl fails ↦ both_fail i _ _ (ground (arith, taken)) (ground (arith, taken))
            | inr (resized, runs) ↦
                agree i _ _ (stands c i finished (record t { store = insert key resized t.store }))
                  (record locked { store = insert key resized p.store }) (ground (arith, taken))
                  (ground (arith, taken)) held (ap (insert key resized) same) (ground arith)
          ]
        ]
      ]

  -- A thread of `remove_pool` or `add_pool` that finds the lock free, and that no other thread
  -- disturbs, does in four steps what the body of the call does: they both do not return, or they
  -- leave the same pools and the same lock.
  pub alone_as_called :
      (i : ℕ) (s : Threads c) (p : PoolStore c)
      → s.place i ≡ arriving
      → s.cell ≡ 0
      → p.mutating ≡ 0
      → s.store ≡ p.store
      → Agrees i
          (acts c ((i, false) ∷ (i, false) ∷ (i, false) ∷ (i, false) ∷ []) s)
          (body (s.task i) p)
  alone_as_called i s p starts free same_lock same_store =
      let t = attempt c i false (arrive c i s) in
      let (enter, there, held, stored, task) = enters i s starts free in
      let split = acts_after i s t ((i, false) ∷ (i, false) ∷ []) enter in
      let same = stored ∙ same_store in
      elim (Task-cases (s.task i)) [
        | inl (key, e) ↦ rw (split, e) (removes_agree i key t p there (task ∙ e) same_lock same)
        | inr (key, size, e) ↦
            rw (split, e)
              (adds_agree i key size t p there (task ∙ e) (held ∙ ap direction e) same_lock same)
      ]

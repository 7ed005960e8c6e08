-- ===== src/Pool/Calls/Keeping.antt =====
-- src/pool.rs: what the calls that change a pool's workers keep of it.
use thread_pool.Prelude.{
  [], ◌∷◌, ap, Bool, ℕ, ◌+◌, ◌-◌, ◌≤◌, ◌<◌, ◌≡◌, refl, ap, sym, subst, ◌∙◌, true, [], none, some,
  Option-cases, Bool-cases, inl, inr, ◌==◌, ltb, arith,
}
use thread_pool.Channel.{Channel}
use thread_pool.Manager
use thread_pool.Manager.{Manager}
use thread_pool.Manager.Sizing
use thread_pool.Manager.Sizing.{workers_count}
use thread_pool.Manager.Valid.{IsValid}
use thread_pool.Manager.Runs.{
  Operation, adding, shrinking, dismissing, cleaning, removing, new_ids, Keeps, perform-Keeps,
}
use thread_pool.Manager.Runs
use thread_pool.Pool.{ThreadPool, set_status, update_status}
use thread_pool.Pool.Creation.{IsReady}
use thread_pool.Pool.Life.{unhibernate, clear}
use thread_pool.Pool.Resizing.{extend, shrink, resize, kill_worker}
use thread_pool.Pool.Calls.Frame.{send_terminate_sends, Core, core, wake_workers-core}

module _ (c : Channel) where
  -- What a call that returned has kept, if it gave out so many ids.
  pub record Stays (more : ℕ) (p q : ThreadPool c) : Type 0 where
    pub ready : IsReady c q
    pub moved : q.manager.last_worker_id ≤ p.manager.last_worker_id + more
    pub size : q.init_size ≡ p.init_size
    pub policy : q.timeout_policy ≡ p.timeout_policy

  -- The log is nothing that validity speaks of.
  logged-IsValid :
      (m n : Manager) → record m { log = [] } ≡ record n { log = [] } → IsValid n → IsValid m
  logged-IsValid m n e v =
      let same : IsValid (record m { log = [] }) = subst IsValid (sym e) (record {
        free = v.free;
        distinct = v.distinct;
        ranged = v.ranged;
        floor = v.floor;
        fits = v.fits;
      }) in
      record {
        free = same.free;
        distinct = same.distinct;
        ranged = same.ranged;
        floor = same.floor;
        fits = same.fits;
      }

  pub managed-Stays :
      (more : ℕ) (p q : ThreadPool c) (n : Manager)
      → IsReady c p
      → Keeps more p.manager n
      → core c q ≡ core c (record p { manager = n })
      → Stays more p q
  managed-Stays more p q n r (valid, last, chan) e =
      let m = ap (λ (k : Core). k.manager) e in
      record {
        ready = record {
          manager_valid = logged-IsValid q.manager n m valid;
          senders = ap (λ (k : Core). k.senders) e ∙ r.senders;
          receivers = ap (λ (m : Manager). m.chan) m ∙ chan ∙ r.receivers;
          size_pos = omega (arith, r.size_pos, ap (λ (k : Core). k.size) e);
          size_capped = omega (arith, r.size_capped, ap (λ (k : Core). k.size) e);
        };
        moved = omega (arith, last, ap (λ (m : Manager). m.last_worker_id) m);
        size = ap (λ (k : Core). k.size) e;
        policy = ap (λ (k : Core). k.policy) e;
      }

  pub core-Stays : (p q : ThreadPool c) → IsReady c p → core c q ≡ core c p → Stays 0 p q
  core-Stays p q r e = managed-Stays 0 p q p.manager r (r.manager_valid, omega arith, refl) e

  pub Stays-weaken : (k n : ℕ) (p q : ThreadPool c) → k ≤ n → Stays k p q → Stays n p q
  Stays-weaken k n p q h s = record {
    ready = s.ready;
    moved = omega (arith, h, s.moved);
    size = s.size;
    policy = s.policy;
  }

  pub Stays-trans : (k n : ℕ) (p q r : ThreadPool c) → Stays k p q → Stays n q r → Stays (k + n) p r
  Stays-trans k n p q r a b = record {
    ready = b.ready;
    moved = omega (arith, a.moved, b.moved);
    size = b.size ∙ a.size;
    policy = b.policy ∙ a.policy;
  }

  -- An operation of the manager, and then nothing that changes the core.
  pub operation-Stays :
      (op : Operation) (p q : ThreadPool c) (n : Manager)
      → IsReady c p
      → p.manager.last_worker_id + new_ids op < 18446744073709551616
      → Runs.perform op p.manager ≡ some n
      → core c q ≡ core c (record p { manager = n })
      → Stays (new_ids op) p q
  operation-Stays op p q n r fits done e =
      managed-Stays (new_ids op) p q n r (perform-Keeps op p.manager n r.manager_valid fits done) e

  pub extend-Stays :
      (more : ℕ) (p q : ThreadPool c)
      → IsReady c p
      → p.manager.last_worker_id + more < 18446744073709551616
      → extend c more p ≡ some q
      → Stays more p q
  unfolding extend Sizing.extend_by Runs.perform
  extend-Stays more p q r fits e = elim (Bool-cases (more == 0)) [
    | inl nothing ↦ Stays-weaken 0 more p q (omega arith) (core-Stays p q r (ground arith))
    | inr some_more ↦ elim (Option-cases (Manager.add_workers more true p.manager)) [
      | inl panics ↦ absurd (ground arith)
      | inr (n, added) ↦ operation-Stays (adding more true) p q n r fits added (ground arith)
    ]
  ]

  pub shrink-Stays :
      (less : ℕ) (p q : ThreadPool c) → IsReady c p → shrink c less p ≡ some q → Stays 0 p q
  unfolding shrink Runs.perform
  shrink-Stays less p q r e = elim (Bool-cases (less == 0)) [
    | inl nothing ↦ core-Stays p q r (ground arith)
    | inr some_less ↦ elim (Option-cases (Sizing.shrink_by less p.manager)) [
      | inl panics ↦ absurd (ground arith)
      | inr ((gone, n), shrunk) ↦
          let (left, same) =
            send_terminate_sends c gone (record p { manager = n }) q (ground arith) in
          operation-Stays (shrinking less) p q n r (omega (arith, r.manager_valid.fits))
            (ground arith) (ap (λ (k : ThreadPool c). core c k) same)
    ]
  ]

  pub kill_worker-Stays :
      (id : ℕ) (p q : ThreadPool c) → IsReady c p → kill_worker c id p ≡ some q → Stays 0 p q
  unfolding kill_worker Runs.perform
  kill_worker-Stays id p q r e = elim (Option-cases (Sizing.dismiss_worker id p.manager)) [
    | inl panics ↦ absurd (ground arith)
    | inr ((none, n), dismissed) ↦
        operation-Stays (dismissing id) p q n r (omega (arith, r.manager_valid.fits)) (ground arith)
          (ground arith)
    | inr ((some gone, n), dismissed) ↦
        let (left, same) =
          send_terminate_sends c (id ∷ []) (record p { manager = n }) q (ground arith) in
        operation-Stays (dismissing id) p q n r (omega (arith, r.manager_valid.fits)) (ground arith)
          (ap (λ (k : ThreadPool c). core c k) same)
  ]

  pub resize-Stays :
      (target : ℕ) (p q : ThreadPool c)
      → IsReady c p
      → p.manager.last_worker_id + target < 18446744073709551616
      → resize c target p ≡ some q
      → Stays target p q
  unfolding resize
  resize-Stays target p q r fits e =
      let worker_count = workers_count p.manager in
      elim (Bool-cases (target == 0)) [
        | inl nothing ↦ Stays-weaken 0 target p q (omega arith) (core-Stays p q r (ground arith))
        | inr some_target ↦ elim (Bool-cases (ltb worker_count target)) [
          | inl grows ↦
              Stays-weaken (target - worker_count) target p q (omega arith)
                (extend-Stays (target - worker_count) p q r (omega (arith, fits)) (ground arith))
          | inr keeps ↦ elim (Bool-cases (ltb target worker_count)) [
            | inl less ↦
                Stays-weaken 0 target p q (omega arith)
                  (shrink-Stays (worker_count - target) p q r (ground arith))
            | inr same ↦ Stays-weaken 0 target p q (omega arith) (core-Stays p q r (ground arith))
          ]
        ]
      ]

  pub clear-Stays : (p q : ThreadPool c) → IsReady c p → clear c p ≡ some q → Stays 0 p q
  unfolding clear set_status Runs.perform
  clear-Stays p q r e = elim (Option-cases (Manager.remove_all true p.manager)) [
    | inl waits ↦ absurd (ground arith)
    | inr (n, removed) ↦
        operation-Stays (removing true) p q n r (omega (arith, r.manager_valid.fits)) removed
          (ground arith)
  ]

  pub unhibernate-Stays :
      (spurious : Bool) (p q : ThreadPool c)
      → IsReady c p
      → unhibernate c spurious p ≡ some q
      → Stays 0 p q
  unfolding unhibernate update_status Runs.perform
  unhibernate-Stays spurious p q r e =
      let (hit, updated) = update_status c spurious 4 0 p in
      elim (Bool-cases hit) [
        | inl asleep ↦ elim (Option-cases (Manager.worker_cleanup p.manager)) [
          | inl panics ↦ absurd (ground arith)
          | inr (n, cleaned) ↦
              operation-Stays cleaning p q n r (omega (arith, r.manager_valid.fits)) cleaned
                (ground (arith, wake_workers-core c (record updated { manager = n })))
        ]
        | inr awake ↦ core-Stays p q r (ground arith)
      ]

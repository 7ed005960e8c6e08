-- ===== src/Pool/Scaling.antt =====
-- src/pool.rs: which calls leave the setting `auto_scale` alone.
use thread_pool.Prelude.{
  ℕ, ◌-◌, ◌≡◌, ap, Bool, true, false, ◌||◌, ◌&&◌, some, ok, err, Option-cases, Bool-cases, inl, inr,
  if◌then◌else◌, ◌==◌, arith,
}
use thread_pool.Model.{Job, single_job}
use thread_pool.Channel.{Channel}
use thread_pool.Manager
use thread_pool.Manager.{Manager}
use thread_pool.Manager.Sizing
use thread_pool.Manager.Sizing.{workers_count}
use thread_pool.Pool.{ThreadPool, set_status, amortized_new_size}
use thread_pool.Pool.Dispatch.{dispatch}
use thread_pool.Pool.Exec.{scale, exec, exec_on, Executed}
use thread_pool.Pool.Life.{clear, shut_down}
use thread_pool.Pool.Resizing.{extend, shrink, resize, auto_adjust, get_queue_length}
use thread_pool.Pool.Sizes.{auto_adjust_only_extends}
use thread_pool.Pool.Sleeping.{activate_idle}
use thread_pool.Pool.Calls.Frame.{Frame, dispatch-frame, send_terminate_sends}

module _ (c : Channel) where
  abbrev SameScale : ThreadPool c → ThreadPool c → Type 0
  SameScale p q = q.auto_scale ≡ p.auto_scale

  -- Scaling changes the workers alone.
  pub scale_manages :
      (worker_count : ℕ) (busy : Bool) (p q : ThreadPool c)
      → scale c worker_count busy p ≡ some q
      → (m : Manager) × (q ≡ record p { manager = m })
  unfolding scale
  scale_manages worker_count busy p q e = elim (Option-cases (amortized_new_size c p.init_size p)) [
    | inl enough ↦ (p.manager, ground arith)
    | inr (target, wanted) ↦
        elim (Option-cases (Manager.add_workers (target - worker_count) false p.manager)) [
          | inl panics ↦ (p.manager, ground arith)
          | inr (m, added) ↦ elim (Bool-cases (busy && p.auto_scale)) [
            | inl scales ↦ (m, ground arith)
            | inr keeps ↦ (p.manager, ground arith)
          ]
        ]
  ]

  scale-SameScale :
      (worker_count : ℕ) (busy : Bool) (p q : ThreadPool c)
      → scale c worker_count busy p ≡ some q
      → SameScale p q
  scale-SameScale worker_count busy p q e =
      ap (λ (r : ThreadPool c). r.auto_scale) (scale_manages worker_count busy p q e).1

  exec_on-SameScale :
      (f : Job) (prioritized : Bool) (p : ThreadPool c) (r : Executed c)
      → exec_on c f prioritized p ≡ some r
      → SameScale p r.1
  unfolding exec_on
  exec_on-SameScale f prioritized p r e =
      let retry : ℕ = if p.auto_scale then 1 else 0 in
      let worker_count = workers_count p.manager in
      elim (Bool-cases (worker_count == 0)) [
        | inl gone ↦ ground arith
        | inr some_worker ↦ elim (Option-cases (dispatch c (single_job f) retry prioritized p)) [
          | inl waits ↦ absurd (ground arith)
          | inr ((err refused, m), sent) ↦
              let same = dispatch-frame c (single_job f) retry prioritized p (err refused) m sent in
              let kept = ap (λ (k : Frame). k.auto_scale) same in ground arith
          | inr ((ok busy, m), sent) ↦
              let same = dispatch-frame c (single_job f) retry prioritized p (ok busy) m sent in
              let kept = ap (λ (k : Frame). k.auto_scale) same in
              elim (Option-cases (scale c worker_count busy m)) [
                | inl panics ↦ absurd (ground arith)
                | inr (n, scaled) ↦ ground (arith, scale-SameScale worker_count busy m n scaled)
              ]
        ]
      ]

  pub exec-SameScale :
      (f : Job) (prioritized : Bool) (p : ThreadPool c) (r : Executed c)
      → exec c f prioritized p ≡ some r
      → SameScale p r.1
  unfolding exec
  exec-SameScale f prioritized p r e =
      let idle = activate_idle c p in
      elim (Bool-cases (p.status == 1 || p.status == 2)) [
        | inl closing ↦ ground arith
        | inr running ↦ exec_on-SameScale f prioritized p r (ground (arith, idle))
      ]

  extend-SameScale : (more : ℕ) (p q : ThreadPool c) → extend c more p ≡ some q → SameScale p q
  unfolding extend
  extend-SameScale more p q e = elim (Option-cases (Sizing.extend_by more p.manager)) [
    | inl panics ↦ ground arith
    | inr (m, added) ↦ ground arith
  ]

  shrink-SameScale : (less : ℕ) (p q : ThreadPool c) → shrink c less p ≡ some q → SameScale p q
  unfolding shrink
  shrink-SameScale less p q e = elim (Option-cases (Sizing.shrink_by less p.manager)) [
    | inl panics ↦ ground arith
    | inr ((gone, m), shrunk) ↦ elim (Bool-cases (less == 0)) [
      | inl nothing ↦ ground arith
      | inr some_less ↦
          let (left, same) =
            send_terminate_sends c gone (record p { manager = m }) q (ground arith) in
          ap (λ (r : ThreadPool c). r.auto_scale) same
    ]
  ]

  pub resize-SameScale :
      (target : ℕ) (p q : ThreadPool c) → resize c target p ≡ some q → SameScale p q
  unfolding resize
  resize-SameScale target p q e =
      let worker_count = workers_count p.manager in
      ground (
        arith,
        extend-SameScale (target - worker_count) p q,
        shrink-SameScale (worker_count - target) p q,
      )

  pub auto_adjust-SameScale : (p q : ThreadPool c) → auto_adjust c p ≡ some q → SameScale p q
  auto_adjust-SameScale p q e =
      ground (arith, auto_adjust_only_extends c p, extend-SameScale (get_queue_length c p) p q)

  pub shut_down-SameScale :
      (forced : Bool) (p q : ThreadPool c) → shut_down c forced p ≡ some q → SameScale p q
  unfolding shut_down clear set_status
  shut_down-SameScale forced p q e = elim (Option-cases (Manager.remove_all true p.manager)) [
    | inl waits ↦ absurd (ground arith)
    | inr (m, removed) ↦ ground arith
  ]

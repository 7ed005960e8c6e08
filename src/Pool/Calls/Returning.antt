-- ===== src/Pool/Calls/Returning.antt =====
-- src/pool.rs: the calls that change a pool's workers return.
use thread_pool.Prelude.{
  [], ◌∷◌, ℕ, zero, suc, ◌+◌, ◌-◌, ◌≤◌, ◌<◌, ◌≡◌, ◌≢◌, refl, Bool, true, false, Option, none, some,
  Option-cases, Bool-cases, inl, inr, ◌==◌, arith,
}
use thread_pool.Model.{Message}
use thread_pool.Channel.{Channel}
use thread_pool.Config.{lossy_retry}
use thread_pool.Worker.Serving.{List-cases}
use thread_pool.Manager
use thread_pool.Manager.{Manager}
use thread_pool.Manager.Cleanup.{worker_cleanup_keeps}
use thread_pool.Manager.Growth.{add_workers_grows}
use thread_pool.Manager.Lock.{spin_free}
use thread_pool.Manager.Shrink.{dismiss_worker_removes}
use thread_pool.Manager.Sizing
use thread_pool.Manager.Sizing.{workers_count}
use thread_pool.Manager.Valid.{IsValid}
use thread_pool.Pool.{ThreadPool, amortized_new_size, set_status, update_status}
use thread_pool.Pool.Creation.{IsReady}
use thread_pool.Pool.Dispatch.{dispatch, send, pick}
use thread_pool.Pool.Sending.{send_timeout_ends}
use thread_pool.Pool.Life.{unhibernate, clear}
use thread_pool.Pool.Exec.{scale}
use thread_pool.Pool.Resizing.{extend, shrink, resize, auto_adjust, kill_worker, get_queue_length}
use thread_pool.Pool.Sizes.{auto_adjust_only_extends, SendEnds, shrinks, send_terminate_ends}
use thread_pool.Worker.{Queue}

abbrev pub HasResult : {A : Type 0} → Option A → Type 0
HasResult {A = A} o = (a : A) × (o ≡ some a)

pub never_none : {A : Type 0} (o : Option A) → o ≢ none → HasResult o
never_none o h = elim (Option-cases o) [ inl gone ↦ absurd (h gone) | inr found ↦ found ]

add_workers_returns :
    (k : ℕ) (privileged : Bool) (m : Manager)
    → IsValid m
    → m.last_worker_id + k < 18446744073709551616
    → HasResult (Manager.add_workers k privileged m)
unfolding Manager.add_workers
add_workers_returns zero privileged m v fits = (m, refl)
add_workers_returns (suc k) privileged m v fits =
    let g = add_workers_grows (suc k) privileged m v (omega arith) fits in (g.0, g.1)

remove_all_returns : (sync : Bool) (m : Manager) → IsValid m → HasResult (Manager.remove_all sync m)
unfolding Manager.remove_all
remove_all_returns sync m v = elim (List-cases m.workers) [
  | inl gone ↦ (m, ground arith)
  | inr (w, ws, more) ↦ never_none _ (λ gone. ground (arith, spin_free m v.free))
]

dismiss_worker_returns : (id : ℕ) (m : Manager) → IsValid m → HasResult (Sizing.dismiss_worker id m)
dismiss_worker_returns id m v = elim (dismiss_worker_removes id m v) [
  | inl (gone, runs) ↦ (_, runs)
  | inr (w, left, hit, runs, perm) ↦ (_, runs)
]

module _ (c : Channel) where
  -- A pool that blocks without a time limit waits for room in a queue, and that ends.
  abbrev pub WaitsEnd : ThreadPool c → Type 0
  WaitsEnd p =
      p.queue_timeout ≡ none → p.non_blocking ≡ false → (queue : Queue) → SendEnds c queue p

  pub dispatch_returns :
      (message : Message) (retry : ℕ) (with_priority : Bool) (p : ThreadPool c)
      → p.timeout_policy ≢ lossy_retry
      → WaitsEnd p
      → HasResult (dispatch c message retry with_priority p)
  unfolding dispatch send
  dispatch_returns message retry with_priority p policy ends =
      let chan = pick c with_priority p in
      never_none _ (λ gone. elim (Option-cases p.queue_timeout) [
        | inl no_limit ↦ elim (Bool-cases p.non_blocking) [
          | inl tries ↦ ground arith
          | inr blocks ↦ let (r, done) = ends no_limit blocks chan.0 message in ground (arith, done)
        ]
        | inr (period, limited) ↦
            ground (arith, send_timeout_ends c chan message period retry p policy)
      ])

  -- Growing by that many, for a pool that can have so many more ids.
  pub extend_returns :
      (more : ℕ) (p : ThreadPool c)
      → IsReady c p
      → p.manager.last_worker_id + more < 18446744073709551616
      → HasResult (extend c more p)
  unfolding extend Sizing.extend_by
  extend_returns more p r fits =
      let added = add_workers_returns more true p.manager r.manager_valid fits in
      never_none _ (λ gone. ground (arith, added))

  pub shrink_returns :
      (less : ℕ) (p : ThreadPool c)
      → IsReady c p
      → less ≤ workers_count p.manager
      → SendEnds c p.chan.0 p
      → HasResult (shrink c less p)
  unfolding shrink
  shrink_returns less p r within ends = never_none _ (λ gone. elim (Bool-cases (less == 0)) [
    | inl nothing ↦ ground arith
    | inr some_less ↦
        let (q, runs, size, ready) = shrinks c less p r (ground arith) within ends in
        ground (arith, runs)
  ])

  pub kill_worker_returns :
      (id : ℕ) (p : ThreadPool c)
      → IsReady c p
      → SendEnds c p.chan.0 p
      → HasResult (kill_worker c id p)
  unfolding kill_worker
  kill_worker_returns id p r ends = never_none _ (λ gone.
      elim (Option-cases (Sizing.dismiss_worker id p.manager)) [
        | inl panics ↦ ground (arith, dismiss_worker_returns id p.manager r.manager_valid)
        | inr ((none, m), runs) ↦ ground arith
        | inr ((some hit, m), runs) ↦
            let (left, sent) = send_terminate_ends c (id ∷ []) (record p { manager = m }) ends in
            ground (arith, sent)
      ])

  pub resize_returns :
      (target : ℕ) (p : ThreadPool c)
      → IsReady c p
      → p.manager.last_worker_id + target < 18446744073709551616
      → SendEnds c p.chan.0 p
      → HasResult (resize c target p)
  unfolding resize
  resize_returns target p r fits ends =
      let worker_count = workers_count p.manager in
      let grown = extend_returns (target - worker_count) p r (omega (arith, fits)) in
      let less = shrink_returns (worker_count - target) p r (omega arith) ends in
      never_none _ (λ gone. ground (arith, grown, less))

  pub auto_adjust_returns :
      (p : ThreadPool c)
      → IsReady c p
      → p.manager.last_worker_id + get_queue_length c p < 18446744073709551616
      → HasResult (auto_adjust c p)
  auto_adjust_returns p r fits =
      let grown = extend_returns (get_queue_length c p) p r fits in
      never_none _ (λ gone. ground (arith, auto_adjust_only_extends c p, grown))

  pub clear_returns : (p : ThreadPool c) → IsReady c p → HasResult (clear c p)
  unfolding clear set_status
  clear_returns p r =
      never_none _ (λ gone. ground (arith, remove_all_returns true p.manager r.manager_valid))

  pub unhibernate_returns :
      (spurious : Bool) (p : ThreadPool c) → HasResult (unhibernate c spurious p)
  unfolding unhibernate update_status
  unhibernate_returns spurious p =
      never_none _ (λ gone. ground (arith, worker_cleanup_keeps p.manager))

  pub scale_returns :
      (worker_count : ℕ) (busy : Bool) (p : ThreadPool c)
      → worker_count ≡ workers_count p.manager
      → IsReady c p
      → p.manager.last_worker_id + p.init_size < 18446744073709551616
      → HasResult (scale c worker_count busy p)
  unfolding scale amortized_new_size
  scale_returns worker_count busy p same r fits = never_none _ (λ gone.
      elim (Option-cases (amortized_new_size c p.init_size p)) [
        | inl enough ↦ ground arith
        | inr (target, wanted) ↦
            let more : target - worker_count ≡ p.init_size = ground arith in
            let added =
              add_workers_returns (target - worker_count) false p.manager r.manager_valid
                (omega (arith, more, fits)) in
            ground (arith, added)
      ])

-- ===== src/Model.antt =====
-- src/model.rs: the status flags, messages and the static storage. A boxed closure (`Job`) is known
-- by a number, and so is the function behind a `WorkerUpdate`; a call of either is an `Event`.
pub mod Backoff
use thread_pool.Prelude.{ℕ, ◌≡◌, refl, List, Option, none, some, Result, ok, err}

abbrev pub flag_normal : ℕ
flag_normal = 0

abbrev pub flag_closing : ℕ
flag_closing = 1

-- 1 << 1
abbrev pub flag_force_close : ℕ
flag_force_close = 2

-- 1 << 2
abbrev pub flag_hibernating : ℕ
flag_hibernating = 4

-- 1 << 3
abbrev pub flag_lazy_init : ℕ
flag_lazy_init = 8

-- 1 << 4
abbrev pub flag_rest : ℕ
flag_rest = 16

-- 1 << 5
abbrev pub flag_sleep_workers : ℕ
flag_sleep_workers = 32

abbrev pub expire_period : ℕ
expire_period = 128

abbrev pub Job : Type 0
Job = ℕ

abbrev pub WorkerUpdate : Type 0
WorkerUpdate = ℕ

pub data Message : Type 0 where
  single_job : Job → Message
  chained_jobs : List Job → Message
  terminate : List ℕ → Message

-- What the threads and the caller's closures are asked to do, as an observer sees it.
pub data Event : Type 0 where
  called : WorkerUpdate → ℕ → Event
  spawned : ℕ → Event
  told_to_stop : ℕ → Event
  unparked : ℕ → Event
  joined : ℕ → Event
  ran : Job → Event

pub data ErrorKind : Type 0 where
  not_found permission_denied : ErrorKind

-- `StaticStore<T>(Option<T>)`.
pub record StaticStore {ℓ} (T : Type ℓ) : Type ℓ where
  pub inner : Option T

module _ {ℓ} {T : Type ℓ} where
  unfoldable pub store_init : StaticStore T
  store_init = record { inner = none }

  -- `deref` and `deref_mut`, which expect a value; `none` is their panic.
  unfoldable pub deref : StaticStore T → Option T
  deref s = s.inner

  -- `as_ref` and `as_mut`
  unfoldable pub as_ref : StaticStore T → Result T ErrorKind
  as_ref s = elim s.inner [ none ↦ err not_found | some v ↦ ok v ]

  unfoldable pub store_set : StaticStore T → T → StaticStore T
  store_set s v = record { inner = some v }

  unfoldable pub store_take : StaticStore T → Option T × StaticStore T
  store_take s = (s.inner, record { inner = none })

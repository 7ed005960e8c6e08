-- ===== src/Channel.antt =====
-- The channels of crossbeam_channel, a package that the pool calls: an interface over `Message`.
-- Each operation takes the state of one channel, which both ends share, and returns the state that
-- it leaves. What other threads do while a call blocks is up to the implementation of the call.
use thread_pool.Prelude.{
  ℕ, ◌<◌, ◌≡◌, List, [], ◌∷◌, ◌++◌, Bool, true, Option, some, Result, ok, err, length, ◌==◌, leb,
}
use thread_pool.Model.{Message}

pub data TryRecvError : Type 0 where
  empty disconnected : TryRecvError

pub data TrySendError : Type 0 where
  full disconnected : Message → TrySendError

pub data SendTimeoutError : Type 0 where
  timeout disconnected : Message → SendTimeoutError

-- `SendError(msg)` of the blocking `send` is the message itself; `none` is a send that waits for
-- room for ever. A timeout is in nanoseconds.
pub record Channel : Type 1 where
  pub State : Type 0
  pub bounded : ℕ → State
  pub len : State → ℕ
  pub is_empty : State → Bool
  pub is_full : State → Bool
  pub try_recv : State → Result Message TryRecvError × State
  pub try_send : Message → State → Result (Unit {0}) TrySendError × State
  pub send : Message → State → Option (Result (Unit {0}) Message × State)
  pub send_timeout : Message → ℕ → State → Result (Unit {0}) SendTimeoutError × State

-- What the documentation says of a bounded channel whose two ends are alive, as its messages,
-- oldest first: a receive takes the oldest; a send into a channel with room appends; a failed
-- send hands its message back and leaves the channel as it was.
pub record IsFifo (c : Channel) : Type 1 where
  pub contents : c.State → List Message
  pub capacity : c.State → ℕ
  pub len_contents : (s : c.State) → c.len s ≡ length (contents s)
  pub is_empty_len : (s : c.State) → c.is_empty s ≡ (c.len s == 0)
  pub is_full_len : (s : c.State) → c.is_full s ≡ leb (capacity s) (c.len s)
  pub recv_some :
      (s : c.State) (m : Message) (ms : List Message)
      → contents s ≡ m ∷ ms
      → ((c.try_recv s).0 ≡ ok m) × (contents (c.try_recv s).1 ≡ ms)
  pub recv_none :
      (s : c.State)
      → contents s ≡ []
      → ((c.try_recv s).0 ≡ err empty) × (contents (c.try_recv s).1 ≡ [])
  pub try_send_room :
      (m : Message) (s : c.State)
      → c.len s < capacity s
      → ((c.try_send m s).0 ≡ ok tt) × (contents (c.try_send m s).1 ≡ contents s ++ m ∷ [])
  pub try_send_full :
      (m : Message) (s : c.State)
      → c.is_full s ≡ true
      → ((c.try_send m s).0 ≡ err (full m)) × (contents (c.try_send m s).1 ≡ contents s)
  pub send_room :
      (m : Message) (s : c.State)
      → c.len s < capacity s
      → (t : c.State) × (c.send m s ≡ some (ok tt, t)) × (contents t ≡ contents s ++ m ∷ [])
  pub send_timeout_room :
      (m : Message) (t : ℕ) (s : c.State)
      → c.len s < capacity s
      → ((c.send_timeout m t s).0 ≡ ok tt)
        × (contents (c.send_timeout m t s).1 ≡ contents s ++ m ∷ [])
  pub capacity_try_recv : (s : c.State) → capacity (c.try_recv s).1 ≡ capacity s
  pub capacity_try_send : (m : Message) (s : c.State) → capacity (c.try_send m s).1 ≡ capacity s
  pub send_timeout_fails :
      (m : Message) (t : ℕ) (s : c.State) (e : SendTimeoutError)
      → (c.send_timeout m t s).0 ≡ err e
      → (e ≡ timeout m) × (contents (c.send_timeout m t s).1 ≡ contents s)
  pub capacity_send_timeout :
      (m : Message) (t : ℕ) (s : c.State) → capacity (c.send_timeout m t s).1 ≡ capacity s

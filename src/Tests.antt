-- ===== src/Tests.antt =====
-- Runs of the code on small inputs, and the values that they share: a bounded channel, managers and
-- pools of a few workers.
mod Basics
mod Workers
mod Managers
mod Pools
mod Calls
mod Singles
mod Executors
mod Multis
mod Threads
mod Systems
use thread_pool.Prelude.{
  ℕ, ◌≡◌, refl, ◌<◌, ◌≤◌, ap, sym, ◌∙◌, Bool, true, false, List, [], ◌∷◌, ◌++◌, Option, none, some,
  Result, ok, err, length, ◌==◌, leb, ltb, arith, if◌then◌else◌, length-append,
}
use thread_pool.Model.{Message, single_job}
use thread_pool.Channel.{Channel, IsFifo, TryRecvError, TrySendError, SendTimeoutError}

-- A channel as a list and its capacity. In a single thread, the blocking send into a full one waits
-- for ever.
pub record Buffer : Type 0 where
  pub room : ℕ
  pub held : List Message

abbrev pub receive : List Message → ℕ → Result Message TryRecvError × Buffer
receive [] n = (err TryRecvError.empty, record { room = n; held = [] })
receive (m ∷ ms) n = (ok m, record { room = n; held = ms })

abbrev pub push : Message → Buffer → Buffer
push m b = record b { held = b.held ++ m ∷ [] }

abbrev pub buffers : Channel
buffers = record {
  State = Buffer;
  bounded = λ n. record { room = n; held = [] };
  len = λ b. length b.held;
  is_empty = λ b. length b.held == 0;
  is_full = λ b. leb b.room (length b.held);
  try_recv = λ b. receive b.held b.room;
  try_send = λ m b.
      if leb b.room (length b.held) then (err (TrySendError.full m), b) else (ok tt, push m b);
  send = λ m b. if leb b.room (length b.held) then none else some (ok tt, push m b);
  send_timeout = λ m t b.
      if leb b.room (length b.held)
      then (err (SendTimeoutError.timeout m), b)
      else (ok tt, push m b);
}

pub receive_some :
    (l : List Message) (n : ℕ) (m : Message) (ms : List Message)
    → l ≡ m ∷ ms
    → ((receive l n).0 ≡ ok m) × ((receive l n).1.held ≡ ms)
receive_some l n m ms e = (
  ap (λ (k : List Message). (receive k n).0) e,
  ap (λ (k : List Message). (receive k n).1.held) e,
)

pub receive_room : (l : List Message) (n : ℕ) → (receive l n).1.room ≡ n
receive_room [] n = refl
receive_room (m ∷ ms) n = refl

pub receive_none :
    (l : List Message) (n : ℕ)
    → l ≡ []
    → ((receive l n).0 ≡ err TryRecvError.empty) × ((receive l n).1.held ≡ [])
receive_none l n e = (
  ap (λ (k : List Message). (receive k n).0) e,
  ap (λ (k : List Message). (receive k n).1.held) e,
)

abbrev pub buffers_fifo : IsFifo buffers
buffers_fifo = record {
  contents = λ b. b.held;
  capacity = λ b. b.room;
  len_contents = λ b. refl;
  is_empty_len = λ b. refl;
  is_full_len = λ b. refl;
  recv_some = λ b m ms e. receive_some b.held b.room m ms e;
  recv_none = λ b e. receive_none b.held b.room e;
  try_send_room = λ m b h. ground arith;
  try_send_full = λ m b h. ground arith;
  send_room = λ m b h. (push m b, ground arith, refl);
  send_timeout_room = λ m t b h. ground arith;
  capacity_try_recv = λ b. receive_room b.held b.room;
  capacity_try_send = λ m b. ground arith;
  send_timeout_fails = λ m t b e h. ground arith;
  capacity_send_timeout = λ m t b. ground arith;
}

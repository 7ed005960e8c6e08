-- ===== src/Worker/Queues.antt =====
-- src/worker.rs, `check_queues`: which of its two receivers a worker serves. The source calls the
-- first of the pair the priority channel; here they are `first` and `second`.
use thread_pool.Prelude.{ℕ, ◌+◌, Bool, not, ◌&&◌, Option, none, some, ok, err, if◌then◌else◌, ltb}
use thread_pool.Model.{Message, Job}
use thread_pool.Model.Backoff.{minus_one}
use thread_pool.Channel.{Channel}
use thread_pool.Worker.Fetch.{timeout, disconnected, fetch_work, unpack_message}

-- `WorkStatus(i8, Option<Job>)`
pub record WorkStatus : Type 0 where
  pub code : ℕ
  pub job : Option Job

-- What `check_queues` leaves: its result, the counter, and the two channels.
pub record Checked (c : Channel) : Type 0 where
  pub work : WorkStatus
  pub pri_work_count : ℕ
  pub first : c.State
  pub second : c.State

abbrev pub no_work : ℕ → WorkStatus
no_work code = record { code = code; job = none }

-- The counter after work from the first channel: 4 rounds are counted, and then 255 marks that
-- the next round shall skip the first channel, if the second was full.
abbrev pub count_first : ℕ → Bool → ℕ
count_first count second_full =
    if ltb count 4 then count + 1 else if second_full then 255 else count

module _ (c : Channel) where
  abbrev hand_over : Message → ℕ → c.State → c.State → Option (Checked c)
  hand_over m count first second = elim (unpack_message m) [
    | none ↦ none
    | some (job, target) ↦ some (record {
      work = record { code = 0; job = job };
      pri_work_count = count;
      first = first;
      second = second;
    })
  ]

  -- The match on the second channel.
  unfoldable pub check_second : ℕ → c.State → c.State → Bool → Option (Checked c)
  check_second count first second norm_wait =
      let (r, t) = fetch_work c (c.is_full first && not norm_wait) second in
      elim r [
        | ok m ↦ hand_over m 0 first t
        | err disconnected ↦
            some (record {
              work = no_work minus_one;
              pri_work_count = count;
              first = first;
              second = t;
            })
        | err timeout ↦
            some (record { work = no_work 0; pri_work_count = count; first = first; second = t })
      ]

  -- `none` is the panic of `unpack_message`.
  unfoldable pub check_queues : ℕ → c.State → c.State → Bool → Bool → Option (Checked c)
  unfolding check_second
  check_queues count first second pri_wait norm_wait =
      if ltb count 255
      then (let second_full = c.is_full second in
          let (r, t) = fetch_work c (second_full && not pri_wait) first in
          elim r [
            | ok m ↦ hand_over m (count_first count second_full) t second
            | err disconnected ↦ some (record {
              work = no_work minus_one;
              pri_work_count = count;
              first = t;
              second = second;
            })
            | err timeout ↦ check_second count t second norm_wait
          ])
      else check_second 0 first second norm_wait

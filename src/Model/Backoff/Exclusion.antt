-- ===== src/Model/Backoff/Exclusion.antt =====
-- src/model.rs: any number of threads that take the lock by `spin_update` and give it back by
-- `reset_lock`, interleaved in any order.
use thread_pool.Prelude.{ℕ, ◌≡◌, ◌≢◌, true, arith, if◌then◌else◌, ◌==◌}
use thread_pool.Model.Backoff.{exchanges, reset_lock, Attempt}

-- Where a thread stands: outside, in the loop of `spin_update`, or between it and `reset_lock`.
pub data Pc : Type 0 where
  outside : Pc
  spinning : ℕ → Pc
  inside : ℕ → Pc

pub record Threads : Type 0 where
  pub cell : ℕ
  pub pc : ℕ → Pc

abbrev pub update : (ℕ → Pc) → ℕ → Pc → ℕ → Pc
update f i p j = if j == i then p else f j

-- One access to the cell by one thread. An attempt that fails leaves everything as it was.
pub data Step (s t : Threads) : Type 0 where
  begin :
      (i new : ℕ)
      → s.pc i ≡ outside
      → new ≢ 0
      → t ≡ record s { pc = update s.pc i (spinning new) }
      → Step s t
  attempt :
      (i new : ℕ) (a : Attempt)
      → s.pc i ≡ spinning new
      → a.found ≡ s.cell
      → exchanges 0 a ≡ true
      → t ≡ record { cell = new; pc = update s.pc i (inside new) }
      → Step s t
  reset :
      (i new : ℕ)
      → s.pc i ≡ inside new
      → t ≡ record { cell = reset_lock; pc = update s.pc i outside }
      → Step s t

pub data Reach (s : Threads) : Threads → Type 0 where
  here : Reach s s
  next : {t u : Threads} → Reach s t → Step t u → Reach s u

abbrev pub free : Threads
free = record { cell = 0; pc = λ i. outside }

pub record IsExclusive (s : Threads) : Type 0 where
  pub waiting : (i new : ℕ) → s.pc i ≡ spinning new → new ≢ 0
  pub held : (i new : ℕ) → s.pc i ≡ inside new → (s.cell ≡ new) × (new ≢ 0)
  pub unique : (i j new old : ℕ) → s.pc i ≡ inside new → s.pc j ≡ inside old → i ≡ j

Step-IsExclusive : {s t : Threads} → Step s t → IsExclusive s → IsExclusive t
Step-IsExclusive (begin i new out ne eq) v = rw eq (record {
  waiting = λ j m h. ground (arith, v.waiting j m);
  held = λ j m h. ground (arith, v.held j m);
  unique = λ j k m n h l. ground (arith, v.unique j k m n);
})
Step-IsExclusive (attempt i new a spin found wins eq) v = rw eq (record {
  waiting = λ j m h. ground (arith, v.waiting j m);
  held = λ j m h. ground (arith, v.held j m, v.waiting i new spin);
  unique = λ j k m n h l. ground (arith, v.held j m, v.held k n);
})
Step-IsExclusive (reset i new holds eq) v = rw eq (record {
  waiting = λ j m h. ground (arith, v.waiting j m);
  held = λ j m h. ground (arith, v.unique i j new m holds);
  unique = λ j k m n h l. ground (arith, v.unique i j new m holds);
})

free-IsExclusive : IsExclusive free
free-IsExclusive = record { waiting = λ i m h. cc; held = λ i m h. cc; unique = λ i j m n h l. cc }

Reach-IsExclusive : {s t : Threads} → IsExclusive s → Reach s t → IsExclusive t
Reach-IsExclusive v here = v
Reach-IsExclusive v (next r st) = Step-IsExclusive st (Reach-IsExclusive v r)

-- From a free lock, however the threads interleave and however often an exchange fails: two
-- threads that are both between `spin_update` and `reset_lock` are one and the same, and the cell
-- then holds that thread's value, which is not 0.
pub lock_exclusive :
    (t : Threads) (i j new old : ℕ)
    → Reach free t
    → t.pc i ≡ inside new
    → t.pc j ≡ inside old
    → (i ≡ j) × (t.cell ≡ new) × (new ≢ 0)
lock_exclusive t i j new old r h l =
    let v = Reach-IsExclusive free-IsExclusive r in
    (v.unique i j new old h l, (v.held i new h).0, (v.held i new h).1)

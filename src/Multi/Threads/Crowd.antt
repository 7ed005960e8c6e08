-- ===== src/Multi/Threads/Crowd.antt =====
-- src/multi.rs: how many threads of `remove_pool` and `add_pool` may change the store at once.
use thread_pool.Prelude.{
  ℕ, zero, suc, ◌+◌, ◌≤◌, ◌<◌, ◌≡◌, refl, ap, subst, ◌∙◌, String, Bool, false, List, [], ◌∷◌, ◌++◌,
  map, Option, none, some, ◌==◌, Bool-cases, Option-cases, inl, inr, arith,
}
use thread_pool.Prelude.Maps.{lookup}
use thread_pool.Channel.{Channel}
use thread_pool.Manager.Valid.{numbers}
use thread_pool.Multi.Threads.{
  Task, removes, adds, arriving, spinning, inside, leaving, finished, Threads, stands, arrive,
  attempt, take_away, change, leave, act, acts,
}

-- One step of each of these threads.
abbrev turns : List ℕ → List (ℕ × Bool)
turns = map λ i. (i, false)

-- The first thread takes the lock, and then the others arrive.
abbrev pub gathering : ℕ → List (ℕ × Bool)
gathering n = (0, false) ∷ (0, false) ∷ turns (numbers n 1)

-- The first thread ends, and the last one comes in.
abbrev pub taking_turns : ℕ → List (ℕ × Bool)
taking_turns n = (0, false) ∷ (0, false) ∷ (n + 1, false) ∷ (n + 1, false) ∷ []

module _ (c : Channel) where
  acts-append :
      (xs ys : List (ℕ × Bool)) (s t : Threads c)
      → acts c xs s ≡ some t
      → acts c (xs ++ ys) s ≡ acts c ys t
  unfolding acts
  acts-append [] ys s t e =
      ap (λ (o : Option (Threads c)). elim o [ none ↦ none | some u ↦ acts c ys u ]) e
  acts-append ((i, spurious) ∷ xs) ys s t e = elim (Option-cases (act c i spurious s)) [
    | inl fails ↦ absurd (ground arith)
    | inr (u, first) ↦ ground (arith, first, acts-append xs ys u t (ground arith))
  ]

  -- A thread of `remove_pool` that has not begun.
  abbrev pub IsRemover : Threads c → ℕ → Type 0
  IsRemover s i = (s.place i ≡ arriving) × (key : String) × (s.task i ≡ removes key)

  -- Where the lock stands at -1, each remover concedes at once, and goes on.
  removers_follow :
      (k a : ℕ) (s : Threads c)
      → s.cell ≡ 255
      → ((i : ℕ) → a ≤ i → i < a + k → IsRemover s i)
      → (t : Threads c) × (acts c (turns (numbers k a)) s ≡ some t)
        × ((i : ℕ) → a ≤ i → i < a + k → t.place i ≡ inside)
        × ((i : ℕ) → i < a → t.place i ≡ s.place i)
        × ((i : ℕ) → a + k ≤ i → t.place i ≡ s.place i)
        × (t.task ≡ s.task)
        × (t.cell ≡ 255)
        × (t.store ≡ s.store)
  unfolding acts act arrive
  removers_follow zero a s held all =
      (s, refl, λ i low high. absurd (omega arith), λ i h. refl, λ i h. refl, refl, held, refl)
  removers_follow (suc k) a s held all =
      let (starts, key, task) = all a (omega arith) (omega arith) in
      let u = stands c a inside s in
      let first : act c a false s ≡ some u = ground (arith, starts, task, held) in
      let (t, rest, ins, before, after, tasks, cell, store) =
        removers_follow k (a + 1) u held (λ i low high.
          let (still, k, does) = all i (omega arith) (omega arith) in
          (ground (arith, still), k, does)) in
      (
        t,
        ground (arith, first, rest),
        λ i low high. elim (Bool-cases (i == a)) [
          | inl here ↦ ground (arith, before i (ground arith))
          | inr later ↦ ins i (ground arith) (omega arith)
        ],
        λ i h. ground (arith, before i (omega arith)),
        λ i h. ground (arith, after i (omega arith)),
        tasks,
        cell,
        store,
      )

  -- A remover of a key without a pool ends, and frees the lock.
  remover_ends :
      (i : ℕ) (key : String) (s : Threads c)
      → s.place i ≡ inside
      → s.task i ≡ removes key
      → lookup key s.store ≡ none
      → acts c ((i, false) ∷ (i, false) ∷ []) s ≡ some (leave c i (stands c i leaving s))
  unfolding acts act change take_away leave
  remover_ends i key s there task absent = ground arith

  adder_enters :
      (i : ℕ) (key : String) (size : ℕ) (s : Threads c)
      → s.place i ≡ arriving
      → s.task i ≡ adds key size
      → s.cell ≡ 0
      → acts c ((i, false) ∷ (i, false) ∷ []) s
        ≡ some (stands c i inside (record (stands c i spinning s) { cell = 1 }))
  unfolding acts act arrive attempt
  adder_enters i key size s starts task free = ground arith

  -- All the removers come in while the first one holds the lock; the others' places are as before.
  removers_gather :
      (n : ℕ) (gone : String) (s : Threads c)
      → s.cell ≡ 0
      → s.place 0 ≡ arriving
      → s.task 0 ≡ removes gone
      → ((i : ℕ) → 1 ≤ i → i ≤ n → IsRemover s i)
      → (t : Threads c) × (acts c (gathering n) s ≡ some t)
        × ((i : ℕ) → i ≤ n → t.place i ≡ inside)
        × (t.place (n + 1) ≡ s.place (n + 1))
        × ((i : ℕ) → t.task i ≡ s.task i)
        × (t.store ≡ s.store)
  unfolding acts act arrive attempt
  removers_gather n gone s free starts task others =
      let first = stands c 0 inside (record (stands c 0 spinning s) { cell = 255 }) in
      let entered : acts c ((0, false) ∷ (0, false) ∷ []) s ≡ some first = ground arith in
      let (t, follow, ins, before, after, tasks, cell, store) =
        removers_follow n 1 first refl (λ i low high.
          let (still, k, does) = others i low (omega arith) in (ground (arith, still), k, does)) in
      let zeroth : t.place 0 ≡ inside = before 0 (omega arith) in
      (
        t,
        acts-append ((0, false) ∷ (0, false) ∷ []) (turns (numbers n 1)) s first entered ∙ follow,
        λ i within. elim (Bool-cases (i == 0)) [
          | inl here ↦
              let same : 0 ≡ i = ground arith in subst (λ (j : ℕ). t.place j ≡ inside) same zeroth
          | inr other ↦ ins i (ground arith) (omega arith)
        ],
        ground (arith, after (n + 1) (omega arith)),
        λ i. ap (λ (f : ℕ → Task). f i) tasks,
        store,
      )

  -- The lock of the store keeps nobody out. Let a thread of `remove_pool` find the lock free, for a
  -- key that has no pool, and let any number of others and one of `add_pool` not have begun. Then
  -- there is an order of their steps in which all the removers are between their `concede_update`
  -- and their `reset_lock` at once. The first one may then end, and so frees the lock that the
  -- others count on: the thread of `add_pool` takes it, and is in there with all of them.
  pub removers_crowd :
      (n : ℕ) (gone fresh : String) (size : ℕ) (s : Threads c)
      → s.cell ≡ 0
      → s.place 0 ≡ arriving
      → s.task 0 ≡ removes gone
      → lookup gone s.store ≡ none
      → ((i : ℕ) → 1 ≤ i → i ≤ n → IsRemover s i)
      → s.place (n + 1) ≡ arriving
      → s.task (n + 1) ≡ adds fresh size
      → (t u : Threads c) × (acts c (gathering n) s ≡ some t)
        × ((i : ℕ) → i ≤ n → t.place i ≡ inside)
        × (acts c (taking_turns n) t ≡ some u)
        × ((i : ℕ) → 1 ≤ i → i ≤ n + 1 → u.place i ≡ inside)
        × (u.place 0 ≡ finished)
        × (u.cell ≡ 1)
        × (u.store ≡ s.store)
  unfolding leave
  removers_crowd n gone fresh size s free starts task absent others waits does_add =
      let (t, gathered, ins, still, tasked, store) =
        removers_gather n gone s free starts task others in
      let ended = leave c 0 (stands c 0 leaving t) in
      let none_there : lookup gone t.store ≡ none = ap (lookup gone) store ∙ absent in
      let ends = remover_ends 0 gone t (ins 0 (omega arith)) (tasked 0 ∙ task) none_there in
      let last : ended.place (n + 1) ≡ arriving = ground (arith, still, waits) in
      let joins = adder_enters (n + 1) fresh size ended last (tasked (n + 1) ∙ does_add) refl in
      (
        t,
        stands c (n + 1) inside (record (stands c (n + 1) spinning ended) { cell = 1 }),
        gathered,
        ins,
        acts-append ((0, false) ∷ (0, false) ∷ []) ((n + 1, false) ∷ (n + 1, false) ∷ []) t ended
              ends
            ∙ joins,
        λ i low high. elim (Bool-cases (i == n + 1)) [
          | inl here ↦ ground arith
          | inr other ↦ ground (arith, ins i (ground arith))
        ],
        ground arith,
        refl,
        store,
      )

-- ===== src/Status/Flags.antt =====
-- src/pool.rs, `PoolStatus::toggle_flag` among other threads that write the byte.
use Prim.Native.Nat.{bit_and}
use thread_pool.Prelude.{
  ℕ, ◌-◌, ◌%◌, ◌^◌, ◌<◌, ◌≡◌, refl, ap, sym, subst, inl, inr, Bool, true, false, ◌&&◌, ◌||◌, List,
  [], ◌∷◌, ◌++◌, Option, none, some, arith, if◌then◌else◌, ◌==◌, ltb, All, Bool-cases, Option-cases,
}
use thread_pool.Prelude.Bytes.{all_below, all_below_sound}
use thread_pool.Model.Backoff.{Attempt, exchanges, alone}
use thread_pool.Status.{calc_new_stat, toggle_loop, toggle_flag, done, looping}

-- The seven other bits of a byte.
abbrev pub other_bits : ℕ → ℕ → ℕ
other_bits status flag = bit_and status (255 - flag)

-- `new` is `old` with one flag set or cleared: the flag stands as desired, and every other bit is
-- the old one's.
abbrev pub Toggled : ℕ → ℕ → Bool → ℕ → Type 0
Toggled old flag on new =
    (bit_and new flag ≡ (if on then flag else 0)) × (other_bits new flag ≡ other_bits old flag)

toggled_test : ℕ → ℕ → Bool → ℕ → Bool
toggled_test old flag on new =
    (bit_and new flag == (if on then flag else 0)) && (other_bits new flag == other_bits old flag)

-- What `calc_new_stat` leaves on the byte.
abbrev settled : ℕ → Option ℕ → ℕ
settled old none = old
settled old (some new) = new

test_sound :
    (old flag new : ℕ) (on : Bool)
    → (toggled_test old flag on new && ltb new 256) ≡ true
    → Toggled old flag on new × (new < 256)
unfolding toggled_test
test_sound old flag new on h = ground arith

calc_test : ℕ → Bool → ℕ → Bool
unfolding calc_new_stat toggled_test
calc_test k on old =
    let new = settled old (calc_new_stat old (2 ^ k) on) in
    toggled_test old (2 ^ k) on new && ltb new 256

calc_table : (on : Bool) → all_below 8 (λ k. all_below 256 (calc_test k on)) ≡ true
unfolding calc_test
calc_table true = refl
calc_table false = refl

-- One evaluation of `calc_new_stat`, on a byte and a single bit.
pub calc_new_stat_toggles :
    (k old : ℕ) (on : Bool)
    → k < 8
    → old < 256
    → Toggled old (2 ^ k) on (settled old (calc_new_stat old (2 ^ k) on))
      × (settled old (calc_new_stat old (2 ^ k) on) < 256)
unfolding calc_test
calc_new_stat_toggles k old on hk ho =
    let row = all_below_sound 8 (λ j. all_below 256 (calc_test j on)) k (calc_table on) hk in
    test_sound old (2 ^ k) _ on (all_below_sound 256 (calc_test k on) old row ho)

bit_table : all_below 8 (λ k. 2 ^ k % 2 == 0 || 2 ^ k == 1) ≡ true
bit_table = refl

-- A toggle that ended: with the byte that its load found, which had the flag as desired, or at one
-- of its attempts, before which it was still looping. That attempt found a byte in the cell, and
-- what it left there is that very byte with the flag toggled.
pub data Ended (old flag : ℕ) (on : Bool) (v : ℕ) (attempts : List Attempt) : Type 0 where
  at_once : v ≡ old → Toggled old flag on old → Ended old flag on v attempts
  at_attempt :
      (before : List Attempt) (a : Attempt) (rest : List Attempt)
      → attempts ≡ before ++ a ∷ rest
      → toggle_flag old before flag on ≡ looping
      → toggle_flag old (before ++ a ∷ []) flag on ≡ done v
      → Toggled a.found flag on v
      → Ended old flag on v attempts

abbrev LoopEnds : ℕ → ℕ → ℕ → Bool → ℕ → List Attempt → Type 0
LoopEnds old new flag on v attempts =
    (before : List Attempt) × (a : Attempt) × (rest : List Attempt) × (attempts
      ≡ before ++ a ∷ rest)
    × (toggle_loop before old new flag on ≡ looping)
    × (toggle_loop (before ++ a ∷ []) old new flag on ≡ done v)
    × Toggled a.found flag on v

toggle_loop_toggles :
    (k old new v : ℕ) (on : Bool) (attempts : List Attempt)
    → k < 8
    → All (λ a. a.found < 256) attempts
    → Toggled old (2 ^ k) on new
    → toggle_loop attempts old new (2 ^ k) on ≡ done v
    → LoopEnds old new (2 ^ k) on v attempts
unfolding toggle_loop
toggle_loop_toggles k old new v on [] hk hb ht e = absurd (ground arith)
toggle_loop_toggles k old new v on (a ∷ rest) hk hb ht e = elim (Bool-cases (exchanges old a)) [
  | inl wins ↦
      let found : a.found ≡ old = ground arith in
      let written : new ≡ v = ground arith in
      let t = subst (λ (w : ℕ). Toggled old (2 ^ k) on w) written ht in
      (
        [],
        a,
        rest,
        refl,
        refl,
        ground arith,
        subst (λ (w : ℕ). Toggled w (2 ^ k) on v) (sym found) t,
      )
  | inr loses ↦ elim (Option-cases (calc_new_stat a.found (2 ^ k) on)) [
    | inl settles ↦
        let t = (calc_new_stat_toggles k a.found on hk hb.0).0 in
        ([], a, rest, refl, refl, ground arith, ground (arith, t))
    | inr (val, more) ↦
        let t = (calc_new_stat_toggles k a.found on hk hb.0).0 in
        let t' : Toggled a.found (2 ^ k) on val = ground (arith, t) in
        let e' : toggle_loop rest a.found val (2 ^ k) on ≡ done v = ground arith in
        let (before, b, after, split, looped, ended, toggled) =
          toggle_loop_toggles k a.found val v on rest hk hb.1 t' e' in
        (
          a ∷ before,
          b,
          after,
          ap (◌∷◌ a) split,
          ground (arith, looped),
          ground (arith, ended),
          toggled,
        )
  ]
]

-- A toggle of one bit, whatever the other threads write between its reads and exchanges: when it
-- ends, then either the byte that it loaded had the bit as desired, and it wrote nothing; or its
-- last attempt found some byte in the cell, and what it left there is that same byte with the bit
-- set or cleared as desired and the seven other bits untouched. So what another thread wrote to
-- another flag before that attempt is still there after it.
pub toggle_flag_toggles :
    (k old v : ℕ) (on : Bool) (attempts : List Attempt)
    → k < 8
    → old < 256
    → All (λ a. a.found < 256) attempts
    → toggle_flag old attempts (2 ^ k) on ≡ done v
    → Ended old (2 ^ k) on v attempts
unfolding toggle_flag
toggle_flag_toggles k old v on attempts hk ho hb e =
    let bit = all_below_sound 8 (λ j. 2 ^ j % 2 == 0 || 2 ^ j == 1) k bit_table hk in
    let t = (calc_new_stat_toggles k old on hk ho).0 in
    elim (Option-cases (calc_new_stat old (2 ^ k) on)) [
      | inl settles ↦ at_once (ground (arith, bit)) (ground (arith, t))
      | inr (val, more) ↦
          let t' : Toggled old (2 ^ k) on val = ground (arith, t) in
          let e' : toggle_loop attempts old val (2 ^ k) on ≡ done v = ground (arith, bit) in
          let (before, a, rest, split, looped, ended, toggled) =
            toggle_loop_toggles k old val v on attempts hk hb t' e' in
          at_attempt before a rest split (ground (arith, bit, looped)) (ground (arith, bit, ended))
            toggled
    ]

-- The loop ends: two attempts in a row that find the same byte, and do not fail spuriously, are
-- enough, after any number of others.
toggle_loop_ends :
    (old new w flag : ℕ) (on : Bool) (before rest : List Attempt)
    → (v : ℕ) × (toggle_loop (before ++ alone w ∷ alone w ∷ rest) old new flag on ≡ done v)
unfolding toggle_loop
toggle_loop_ends old new w flag on [] rest = elim (Bool-cases (w == old)) [
  | inl same ↦ (new, ground arith)
  | inr other ↦ elim (Option-cases (calc_new_stat w flag on)) [
    | inl settles ↦ (w, ground arith)
    | inr (val, more) ↦ (val, ground arith)
  ]
]
toggle_loop_ends old new w flag on (b ∷ before) rest = elim (Bool-cases (exchanges old b)) [
  | inl wins ↦ (new, ground arith)
  | inr loses ↦ elim (Option-cases (calc_new_stat b.found flag on)) [
    | inl settles ↦ (b.found, ground arith)
    | inr (val, more) ↦
        let r = toggle_loop_ends b.found val w flag on before rest in (r.0, ground (arith, r.1))
  ]
]

-- A toggle of one bit does not panic, and it ends: two attempts in a row that find the same byte,
-- and do not fail spuriously, are enough, after any others and whatever was loaded first.
pub toggle_flag_ends :
    (k old w : ℕ) (on : Bool) (before rest : List Attempt)
    → k < 8
    → (v : ℕ) × (toggle_flag old (before ++ alone w ∷ alone w ∷ rest) (2 ^ k) on ≡ done v)
unfolding toggle_flag
toggle_flag_ends k old w on before rest hk =
    let bit = all_below_sound 8 (λ j. 2 ^ j % 2 == 0 || 2 ^ j == 1) k bit_table hk in
    elim (Option-cases (calc_new_stat old (2 ^ k) on)) [
      | inl settles ↦ (old, ground (arith, bit))
      | inr (val, more) ↦
          let r = toggle_loop_ends old val w (2 ^ k) on before rest in
          (r.0, ground (arith, bit, r.1))
    ]

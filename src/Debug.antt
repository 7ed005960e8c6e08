-- ===== src/Debug.antt =====
-- src/debug.rs: the switch for diagnostics. `ONCE` and `DEBUG` are one record; std's `Once` is the
-- same interface as parking_lot's. What `env::var("DEBUG_POOL")` gives, `Err` as `none`, is an
-- argument, since the environment may change between two calls.
use thread_pool.Prelude.{
  ◌≡◌, refl, ap, Bool, false, List, [], ◌∷◌, Option, none, some, String, map, arith,
}
use thread_pool.Prelude.Maps.{same_text}
use thread_pool.Once.{Once, OnceState, IsOnce}

abbrev is_one : Option String → Bool
is_one none = false
is_one (some val) = same_text val "1"

module _ (o : Once) where
  pub record Switch : Type 0 where
    pub once : o.State
    pub debug : Bool

  -- `call_once`: it waits for ever within its own closure, and panics on a poisoned cell.
  abbrev latched : Option String → Switch → OnceState → Option Switch
  latched var s OnceState.done = some s
  latched var s OnceState.new =
      some (record { once = o.leave (o.enter s.once); debug = is_one var })
  latched var s OnceState.in_progress = none
  latched var s OnceState.poisoned = none

  unfoldable pub is_debug_mode : Option String → Switch → Option (Bool × Switch)
  is_debug_mode var s = elim (latched var s (o.state s.once)) [
    | none ↦ none
    | some read ↦ some (read.debug, read)
  ]

  -- The answers to a sequence of calls, each with what it would find in the environment.
  unfoldable pub answers : List (Option String) → Switch → Option (List Bool)
  unfolding is_debug_mode
  answers [] s = some []
  answers (var ∷ vars) s = elim (is_debug_mode var s) [
    | none ↦ none
    | some (answer, next) ↦ elim (answers vars next) [
      | none ↦ none
      | some rest ↦ some (answer ∷ rest)
    ]
  ]

  answers_done :
      (vars : List (Option String)) (s : Switch)
      → o.state s.once ≡ OnceState.done
      → answers vars s ≡ some (map (λ var. s.debug) vars)
  unfolding answers is_debug_mode
  answers_done [] s e = refl
  answers_done (var ∷ vars) s e =
      let first : latched var s (o.state s.once) ≡ some s = ap (latched var s) e in
      ground (arith, first, answers_done vars s e)

  -- Whatever becomes of the environment, all calls return, and answer as the first one does: yes
  -- if it finds the variable set to 1.
  pub answers_latch :
      (first : Option String) (vars : List (Option String)) (s : Switch)
      → IsOnce o
      → o.state s.once ≡ OnceState.new
      → answers (first ∷ vars) s ≡ some (map (λ var. is_one first) (first ∷ vars))
  unfolding answers is_debug_mode
  answers_latch first vars s once e =
      let t : Switch = record { once = o.leave (o.enter s.once); debug = is_one first } in
      let runs : latched first s (o.state s.once) ≡ some t = ap (latched first s) e in
      let done = once.ends (o.enter s.once) (once.runs s.once e) in
      ground (arith, runs, answers_done vars t done)

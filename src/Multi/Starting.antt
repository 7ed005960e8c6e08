-- ===== src/Multi/Starting.antt =====
-- src/multi.rs: the pools that an initialization makes.
use thread_pool.Prelude.{
  ℕ, ◌≡◌, refl, sym, subst, Bool, false, ◌||◌, String, List, [], ◌∷◌, ◌++◌, Option, none, some, ok,
  if◌then◌else◌, ◌==◌, arith, Bool-cases, Option-cases, inl, inr,
}
use text.Mathlib.TextEquality.{eq_iff}
use thread_pool.Prelude.Maps.{lookup, same_text, is_empty_text}
use thread_pool.Channel.{Channel}
use thread_pool.Config.{Config}
use thread_pool.Once.{Once, OnceState, IsOnce}
use thread_pool.Pool.{ThreadPool, new_with_config}
use thread_pool.Pool.Creation.{IsReady, IsMade, new_with_config_makes}
use thread_pool.Multi.{
  PoolStore, Statics, is_empty, or_insert, copy_keys, create_pools, set_pools, inner, create,
  init_with_config,
}

-- A size of 0 asks for no pool, and so does the empty key.
abbrev pub asked : String → Option ℕ → Option ℕ
asked key none = none
asked key (some size) = if is_empty_text key || size == 0 then none else some size

-- The first entry of a key that asks for a pool.
abbrev wanted : String → List (String × ℕ) → Option ℕ
wanted k [] = none
wanted k ((key, size) ∷ keys) =
    let rest = wanted k keys in
    if same_text key k then elim (asked key (some size)) [ none ↦ rest | some n ↦ some n ] else rest

abbrev first_some {ℓ} : {A : Type ℓ} → Option A → Option A → Option A
first_some none y = y
first_some (some x) y = some x

lookup-append :
    {V : Type 0} (k : String) (m n : List (String × V))
    → lookup k (m ++ n) ≡ first_some (lookup k m) (lookup k n)
unfolding lookup
lookup-append k [] n = refl
lookup-append k ((j, v) ∷ m) n = ground (arith, lookup-append k m n)

wanted-append :
    (k : String) (m n : List (String × ℕ))
    → wanted k (m ++ n) ≡ first_some (wanted k m) (wanted k n)
wanted-append k [] n = refl
wanted-append k ((j, size) ∷ m) n = ground (arith, wanted-append k m n)

lookup-or_insert :
    (k key : String) (size : ℕ) (m : List (String × ℕ))
    → lookup k (or_insert key size m) ≡ first_some (lookup k m) (lookup k ((key, size) ∷ []))
unfolding lookup
lookup-or_insert k key size m = ground (arith, lookup-append k m ((key, size) ∷ []), eq_iff key k)

wanted-or_insert :
    (key : String) (size : ℕ) (m : List (String × ℕ))
    → ((k : String) → wanted k m ≡ asked k (lookup k m))
    → (k : String) → wanted k (or_insert key size m) ≡ asked k (lookup k (or_insert key size m))
unfolding lookup
wanted-or_insert key size m map k = ground (
  arith,
  map k,
  lookup-append k m ((key, size) ∷ []),
  wanted-append k m ((key, size) ∷ []),
  eq_iff key k,
)

-- The copy is a map: it has at most one entry of a key, the first one.
copy_keys-wanted :
    (keys m : List (String × ℕ))
    → ((k : String) → wanted k m ≡ asked k (lookup k m))
    → (k : String) → wanted k (copy_keys keys m) ≡ asked k (first_some (lookup k m) (lookup k keys))
unfolding copy_keys lookup
copy_keys-wanted [] m map k = ground (arith, map k)
copy_keys-wanted ((key, size) ∷ keys) m map k = ground (
  arith,
  copy_keys-wanted keys (or_insert key size m) (wanted-or_insert key size m map) k,
  lookup-or_insert k key size m,
)

module _ (c : Channel) where
  -- What a key finds in the store of an initialization, by the size that was asked for.
  abbrev pub Found : Config → Option ℕ → Option (ThreadPool c) → Type 0
  Found config none found = found ≡ none
  Found config (some size) found =
      (pool : ThreadPool c) × (found ≡ some pool)
      × (new_with_config c size config ≡ some pool)
      × IsReady c pool
      × IsMade c size config pool

  -- The pools of a store are kept, and the other keys find what they ask for.
  record Extends (config : Config) (keys : List (String × ℕ))
      (before after : List (String × ThreadPool c)) : Type 0 where
    kept :
        (k : String) (pool : ThreadPool c)
        → lookup k before ≡ some pool
        → lookup k after ≡ some pool
    added : (k : String) → lookup k before ≡ none → Found config (wanted k keys) (lookup k after)

  create_pools-Extends :
      (config : Config) (keys : List (String × ℕ)) (before : List (String × ThreadPool c))
      → (after : List (String × ThreadPool c)) × (create_pools c config keys before ≡ some after)
        × Extends config keys before after
  unfolding create_pools lookup
  create_pools-Extends config [] before =
      (before, refl, record { kept = λ k pool there. there; added = λ k gone. gone })
  create_pools-Extends config ((key, size) ∷ keys) before =
      elim (Bool-cases (is_empty_text key || size == 0)) [
        | inl skipped ↦
            let (after, runs, rest) = create_pools-Extends config keys before in
            (
              after,
              ground (arith, runs),
              record {
                kept = rest.kept;
                added = λ k gone.
                    let same : wanted k ((key, size) ∷ keys) ≡ wanted k keys =
                      ground (arith, eq_iff key k) in
                    subst (λ (size : Option ℕ). Found config size (lookup k after)) (sym same)
                      (rest.added k gone);
              },
            )
        | inr asked_for ↦ elim (Option-cases (lookup key before)) [
          | inr (old, there) ↦
              let (after, runs, rest) = create_pools-Extends config keys before in
              (
                after,
                ground (arith, runs),
                record {
                  kept = rest.kept;
                  added = λ k gone.
                      let same : wanted k ((key, size) ∷ keys) ≡ wanted k keys =
                        ground (arith, eq_iff key k) in
                      subst (λ (size : Option ℕ). Found config size (lookup k after)) (sym same)
                        (rest.added k gone);
                },
              )
          | inl gone ↦
              let (pool, makes, ready, made_so) = new_with_config_makes c size config in
              let (after, runs, rest) =
                create_pools-Extends config keys (before ++ (key, pool) ∷ []) in
              (
                after,
                ground (arith, runs, makes),
                record {
                  kept = λ k old there.
                      rest.kept k old (ground (arith, lookup-append k before ((key, pool) ∷ [])));
                  added = λ k gone. elim (Bool-cases (same_text key k)) [
                    | inl same ↦
                        let found =
                          rest.kept k pool
                            (ground (arith, lookup-append k before ((key, pool) ∷ []))) in
                        let first : wanted k ((key, size) ∷ keys) ≡ some size =
                          ground (arith, eq_iff key k) in
                        subst (λ (size : Option ℕ). Found config size (lookup k after)) (sym first)
                          (pool, found, makes, ready, made_so)
                    | inr differs ↦
                        let later : wanted k ((key, size) ∷ keys) ≡ wanted k keys = ground arith in
                        subst (λ (size : Option ℕ). Found config size (lookup k after)) (sym later)
                          (rest.added k (ground (arith, lookup-append k before ((key, pool) ∷ []))))
                  ];
                },
              )
        ]
      ]

-- The statics before any call.
pub record IsFresh (c : Channel) (o : Once) (s : Statics c o) : Type 0 where
  pub not_started : o.state s.once ≡ OnceState.new
  pub not_closing : s.closing ≡ false
  pub no_pools : s.pools.inner ≡ none

module _ (c : Channel) (o : Once) (lawful : IsOnce o) where
  -- From fresh statics, an initialization by some keys ends: `ONCE` is done, and the store is
  -- there, with its lock free. A key that is not empty and was given a size other than 0 leads to a
  -- ready pool as it is made for that size with the configuration: of that size, but at most 1024,
  -- and with that many workers. Every other key leads to none. A second initialization by some keys
  -- panics.
  pub init_makes_pools :
      (spurious again : Bool) (keys others : List (String × ℕ)) (config other_config : Config)
      (s : Statics c o)
      → is_empty keys ≡ false
      → is_empty others ≡ false
      → IsFresh c o s
      → (t : Statics c o) × (p : PoolStore c) × (init_with_config c o spurious keys config s
          ≡ some t)
        × (o.state t.once ≡ OnceState.done)
        × (inner c o t ≡ ok p)
        × (p.mutating ≡ 0)
        × (p.auto_adjust_register ≡ [])
        × ((k : String) → Found c config (asked k (lookup k keys)) (lookup k p.store))
        × (init_with_config c o again others other_config t ≡ none)
  unfolding init_with_config inner create set_pools lookup
  init_makes_pools spurious again keys others config other_config s some_keys more_keys fresh =
      let (store, runs, all) = create_pools-Extends c config (copy_keys keys []) [] in
      let p : PoolStore c = record {
        store = store;
        mutating = 0;
        auto_adjust_period = config.refresh_period;
        auto_adjust_handler = none;
        auto_adjust_register = [];
      } in
      let t = record s { once = o.leave (o.enter s.once); pools = record { inner = some p } } in
      let done = lawful.ends (o.enter s.once) (lawful.runs s.once fresh.not_started) in
      (
        t,
        p,
        ground (arith, runs, fresh.not_started, fresh.no_pools),
        done,
        ground (arith, fresh.not_closing),
        refl,
        refl,
        λ k.
            subst (λ (size : Option ℕ). Found c config size (lookup k store))
              (copy_keys-wanted keys [] (λ j. refl) k) (all.added k refl),
        ground (arith, done),
      )

-- ===== src/Multi/Keys.antt =====
-- src/multi.rs: the keys of the store, which no operation repeats or leaves empty.
use text.Mathlib.TextEquality.{eq_iff}
use thread_pool.Prelude.{
  ℕ, ◌≡◌, refl, sym, subst, Bool, true, false, not, ◌||◌, String, List, [], ◌∷◌, ◌++◌, none, some,
  Option-cases, if◌then◌else◌, ◌==◌, arith, Bool-cases, inl, inr,
}
use thread_pool.Prelude.Maps.{lookup, insert, remove, same_text, is_empty_text}
use thread_pool.Channel.{Channel}
use thread_pool.Config.{Config}
use thread_pool.Pool.{ThreadPool, new_with_config}
use thread_pool.Pool.Life
use thread_pool.Pool.Resizing
use thread_pool.Once.{Once}
use thread_pool.Multi.{create_pools, close_all}
use thread_pool.Multi.Adjusting.{adjust_at, adjust_all}

-- No key is empty, and none stands twice.
abbrev pub AreKeys : {V : Type 0} → List (String × V) → Type 0
AreKeys [] = Unit
AreKeys ((key, v) ∷ rest) = (is_empty_text key ≡ false) × (lookup key rest ≡ none) × AreKeys rest

module _ {V : Type 0} where
  named :
      (key : String) (v : V) (m : List (String × V))
      → lookup key m ≡ some v
      → AreKeys m
      → is_empty_text key ≡ false
  unfolding lookup
  named key v [] there all = absurd (ground arith)
  named key v ((j, w) ∷ rest) there all = elim (Bool-cases (same_text j key)) [
    | inl same ↦ ground (arith, all.0, eq_iff j key)
    | inr differs ↦ named key v rest (ground arith) all.2
  ]

  lookup-insert_other :
      (key j : String) (v : V) (m : List (String × V))
      → same_text key j ≡ false
      → lookup j m ≡ none
      → lookup j (insert key v m) ≡ none
  unfolding lookup insert
  lookup-insert_other key j v [] differs gone = ground arith
  lookup-insert_other key j v ((i, w) ∷ rest) differs gone =
      ground (arith, lookup-insert_other key j v rest, eq_iff i key, eq_iff i j, eq_iff key j)

  insert_at :
      (key : String) (v : V) (j : String) (w : V) (rest : List (String × V))
      → same_text j key ≡ true
      → insert key v ((j, w) ∷ rest) ≡ (key, v) ∷ rest
  unfolding insert
  insert_at key v j w rest same = ground (arith, same)

  insert_after :
      (key : String) (v : V) (j : String) (w : V) (rest : List (String × V))
      → same_text j key ≡ false
      → insert key v ((j, w) ∷ rest) ≡ (j, w) ∷ insert key v rest
  unfolding insert
  insert_after key v j w rest differs = ground (arith, differs)

  pub insert-AreKeys :
      (key : String) (v : V) (m : List (String × V))
      → is_empty_text key ≡ false
      → AreKeys m
      → AreKeys (insert key v m)
  unfolding insert lookup
  insert-AreKeys key v [] some_key all = (some_key, refl, tt)
  insert-AreKeys key v ((j, w) ∷ rest) some_key all = elim (Bool-cases (same_text j key)) [
    | inl same ↦
        let here : j ≡ key = (eq_iff j key).0 same in
        subst AreKeys (sym (insert_at key v j w rest same))
          (some_key, subst (λ (k : String). lookup k rest ≡ none) here all.1, all.2)
    | inr differs ↦ subst AreKeys (sym (insert_after key v j w rest differs)) (
      all.0,
      lookup-insert_other key j v rest (ground (arith, differs, eq_iff j key, eq_iff key j)) all.1,
      insert-AreKeys key v rest some_key all.2,
    )
  ]

  lookup-remove_other :
      (key j : String) (m : List (String × V)) → lookup j m ≡ none → lookup j (remove key m) ≡ none
  unfolding lookup remove
  lookup-remove_other key j [] gone = gone
  lookup-remove_other key j ((i, w) ∷ rest) gone =
      ground (arith, lookup-remove_other key j rest, eq_iff i key, eq_iff i j, eq_iff key j)

  pub remove-AreKeys : (key : String) (m : List (String × V)) → AreKeys m → AreKeys (remove key m)
  unfolding remove
  remove-AreKeys key [] all = tt
  remove-AreKeys key ((j, w) ∷ rest) all = elim (Bool-cases (same_text j key)) [
    | inl same ↦
        let dropped : remove key ((j, w) ∷ rest) ≡ remove key rest = ground (arith, same) in
        subst AreKeys (sym dropped) (remove-AreKeys key rest all.2)
    | inr differs ↦
        let stays : remove key ((j, w) ∷ rest) ≡ (j, w) ∷ remove key rest =
          ground (arith, differs) in
        subst AreKeys (sym stays)
          (all.0, lookup-remove_other key j rest all.1, remove-AreKeys key rest all.2)
  ]

  lookup-snoc :
      (key j : String) (v : V) (m : List (String × V))
      → same_text key j ≡ false
      → lookup j m ≡ none
      → lookup j (m ++ (key, v) ∷ []) ≡ none
  unfolding lookup
  lookup-snoc key j v [] differs gone = ground (arith, differs)
  lookup-snoc key j v ((i, w) ∷ rest) differs gone = ground (arith, lookup-snoc key j v rest)

  snoc-AreKeys :
      (key : String) (v : V) (m : List (String × V))
      → is_empty_text key ≡ false
      → lookup key m ≡ none
      → AreKeys m
      → AreKeys (m ++ (key, v) ∷ [])
  unfolding lookup
  snoc-AreKeys key v [] some_key gone all = (some_key, refl, tt)
  snoc-AreKeys key v ((j, w) ∷ rest) some_key gone all = elim (Bool-cases (same_text j key)) [
    | inl same ↦ absurd (ground arith)
    | inr differs ↦ (
      all.0,
      lookup-snoc key j v rest (ground (arith, differs, eq_iff j key, eq_iff key j)) all.1,
      snoc-AreKeys key v rest some_key (ground (arith, gone, differs)) all.2,
    )
  ]

module _ (c : Channel) where
  pub create_pools-AreKeys :
      (config : Config) (keys : List (String × ℕ)) (before after : List (String × ThreadPool c))
      → AreKeys before
      → create_pools c config keys before ≡ some after
      → AreKeys after
  unfolding create_pools
  create_pools-AreKeys config [] before after all e = subst AreKeys (ground (arith, e)) all
  create_pools-AreKeys config ((key, size) ∷ keys) before after all e =
      elim (Bool-cases (is_empty_text key || size == 0)) [
        | inl skipped ↦ create_pools-AreKeys config keys before after all (ground (arith, e))
        | inr asked ↦ elim (Option-cases (lookup key before)) [
          | inr (old, there) ↦ create_pools-AreKeys config keys before after all (ground (arith, e))
          | inl gone ↦ elim (Option-cases (new_with_config c size config)) [
            | inl fails ↦ absurd (ground (arith, e))
            | inr (pool, made) ↦
                create_pools-AreKeys config keys (before ++ (key, pool) ∷ []) after
                  (snoc-AreKeys key pool before (ground arith) gone all) (ground (arith, e))
          ]
        ]
      ]

  -- An update of the pools that are there leaves their keys.
  abbrev SameKeys : List (String × ThreadPool c) → List (String × ThreadPool c) → Type 0
  SameKeys before after =
      ((j : String) → lookup j before ≡ none → lookup j after ≡ none)
      × (AreKeys before → AreKeys after)

  close_all-SameKeys :
      (forced : Bool) (before after : List (String × ThreadPool c))
      → close_all c forced before ≡ some after
      → SameKeys before after
  unfolding close_all lookup
  close_all-SameKeys forced [] after e =
      let same : [] ≡ after = ground (arith, e) in
      subst (SameKeys []) same ((λ j gone. gone), (λ all. all))
  close_all-SameKeys forced ((key, pool) ∷ before) after e =
      elim (Option-cases (if not forced then Life.close c pool else Life.force_close c pool)) [
        | inl waits ↦ absurd (ground (arith, e))
        | inr (closed, shut) ↦ elim (Option-cases (close_all c forced before)) [
          | inl waits ↦ absurd (ground (arith, e))
          | inr (rest, runs) ↦
              let (absent, keys) = close_all-SameKeys forced before rest runs in
              let same : after ≡ (key, closed) ∷ rest = ground (arith, e, shut, runs) in
              subst (SameKeys ((key, pool) ∷ before)) (sym same) (
                (λ j gone. ground (arith, absent j)),
                (λ all. (all.0, absent key all.1, keys all.2)),
              )
        ]
      ]

  pub close_all-AreKeys :
      (forced : Bool) (before after : List (String × ThreadPool c))
      → AreKeys before
      → close_all c forced before ≡ some after
      → AreKeys after
  close_all-AreKeys forced before after all e = (close_all-SameKeys forced before after e).1 all

  -- A pool that is put back under its key.
  pub put_back-AreKeys :
      (key : String) (old pool : ThreadPool c) (store : List (String × ThreadPool c))
      → lookup key store ≡ some old
      → AreKeys store
      → AreKeys (insert key pool store)
  put_back-AreKeys key old pool store there all =
      insert-AreKeys key pool store (named key old store there all) all

  adjust_at-AreKeys :
      (o : Once) (key : String) (before after : List (String × ThreadPool c))
      → AreKeys before
      → adjust_at c o key before ≡ some after
      → AreKeys after
  unfolding adjust_at
  adjust_at-AreKeys o key before after all e = elim (Option-cases (lookup key before)) [
    | inl gone ↦ subst AreKeys (ground (arith, e)) all
    | inr (old, there) ↦ elim (Option-cases (Resizing.auto_adjust c old)) [
      | inl fails ↦ absurd (ground (arith, e))
      | inr (pool, made) ↦
          let same : after ≡ insert key pool before = ground (arith, e) in
          subst AreKeys (sym same) (put_back-AreKeys key old pool before there all)
    ]
  ]

  pub adjust_all-AreKeys :
      (o : Once) (keys : List String) (before after : List (String × ThreadPool c))
      → AreKeys before
      → adjust_all c o keys before ≡ some after
      → AreKeys after
  unfolding adjust_all
  adjust_all-AreKeys o [] before after all e = subst AreKeys (ground (arith, e)) all
  adjust_all-AreKeys o (key ∷ keys) before after all e =
      elim (Option-cases (adjust_at c o key before)) [
        | inl fails ↦ absurd (ground (arith, e))
        | inr (next, first) ↦
            adjust_all-AreKeys o keys next after (adjust_at-AreKeys o key before next all first)
              (ground (arith, e, first))
      ]

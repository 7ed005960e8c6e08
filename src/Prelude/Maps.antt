-- ===== src/Prelude/Maps.antt =====
-- Maps with text keys, as the code uses those of hashbrown: a list of entries, whose order stands
-- for the order of an iteration.
use Prim.Native.String.{String}
use mathlib.Core.Path.{◌≡◌, refl}
use mathlib.Core.Bool.{Bool, true, false}
use mathlib.Core.List.{List, [], ◌∷◌}
use mathlib.Core.Option.{Option, none, some}
use native.Mathlib.Omega.{arith}
use text.Mathlib.Text.{◌==◌}
use text.Mathlib.TextEquality.{eq_iff}
use mathlib.Core.Logic.{inl, inr}
use thread_pool.Prelude.Tests.{if◌then◌else◌, Bool-cases}

abbrev pub same_text : String → String → Bool
same_text a b = a == b

module _ {ℓ} {V : Type ℓ} where
  unfoldable pub lookup : String → List (String × V) → Option V
  lookup k [] = none
  lookup k ((j, v) ∷ rest) = if same_text j k then some v else lookup k rest

  -- A new entry for the key, in place of the old one if there is any.
  unfoldable pub insert : String → V → List (String × V) → List (String × V)
  insert k v [] = (k, v) ∷ []
  insert k v ((j, w) ∷ rest) =
      let others = insert k v rest in if same_text j k then (k, v) ∷ rest else (j, w) ∷ others

  unfoldable pub remove : String → List (String × V) → List (String × V)
  remove k [] = []
  remove k ((j, w) ∷ rest) =
      let others = remove k rest in if same_text j k then others else (j, w) ∷ others

  pub lookup-insert :
      (k j : String) (v : V) (m : List (String × V))
      → lookup j (insert k v m) ≡ (if same_text k j then some v else lookup j m)
  unfolding lookup insert
  lookup-insert k j v [] = ground arith
  lookup-insert k j v ((i, w) ∷ rest) =
      ground (arith, lookup-insert k j v rest, eq_iff i k, eq_iff i j, eq_iff k j)

  pub lookup-remove :
      (k j : String) (m : List (String × V))
      → lookup j (remove k m) ≡ (if same_text k j then none else lookup j m)
  unfolding lookup remove
  lookup-remove k j [] = ground arith
  lookup-remove k j ((i, w) ∷ rest) =
      ground (arith, lookup-remove k j rest, eq_iff i k, eq_iff i j, eq_iff k j)

module _ {ℓ} {V : Type ℓ} where
  remove_absent : (k : String) (m : List (String × V)) → lookup k m ≡ none → remove k m ≡ m
  unfolding lookup remove
  remove_absent k [] h = refl
  remove_absent k ((i, w) ∷ rest) h = elim (Bool-cases (same_text i k)) [
    | inl same ↦ absurd (ground arith)
    | inr differs ↦ ground (arith, remove_absent k rest (ground arith))
  ]

  pub remove-insert :
      (k : String) (v : V) (m : List (String × V)) → lookup k m ≡ none → remove k (insert k v m) ≡ m
  unfolding lookup insert remove
  remove-insert k v [] h = ground (arith, eq_iff k k)
  remove-insert k v ((i, w) ∷ rest) h = elim (Bool-cases (same_text i k)) [
    | inl same ↦ absurd (ground arith)
    | inr differs ↦ ground (arith, remove-insert k v rest (ground arith))
  ]

pub same_text_refl : (k : String) → same_text k k ≡ true
same_text_refl k = (eq_iff k k).1 refl

abbrev pub contains : String → List String → Bool
contains k [] = false
contains k (j ∷ rest) = if same_text j k then true else contains k rest

unfoldable pub include : String → List String → List String
include k keys = if contains k keys then keys else k ∷ keys

unfoldable pub exclude : String → List String → List String
exclude k [] = []
exclude k (j ∷ rest) = let others = exclude k rest in if same_text j k then others else j ∷ others

abbrev pub is_empty_text : String → Bool
is_empty_text String.[] = true
is_empty_text (String.◌∷◌ a s) = false

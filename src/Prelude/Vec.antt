-- ===== src/Prelude/Vec.antt =====
-- `Vec::swap_remove`: the last element takes the place of the one removed.
use Prim.Native.Nat.{ℕ, zero, suc}
use mathlib.Core.Path.{◌≡◌, refl}
use mathlib.Core.List.{List, [], ◌∷◌, ◌++◌, Perm}
use mathlib.Core.List.Perm
use mathlib.Core.Option.{Option, none, some}
use native.Mathlib.Omega.{arith}
use thread_pool.Prelude.Lists.{length, get_elem?}

module _ {ℓ} {A : Type ℓ} where
  -- All but the last of a non-empty list, with the last in front.
  pub last_first : A → List A → List A
  last_first x [] = x ∷ []
  last_first x (y ∷ ys) = elim (last_first y ys) [ [] ↦ x ∷ [] | z ∷ zs ↦ z ∷ x ∷ zs ]

  -- The tail of a vector from the removed element on.
  pub close_gap : List A → List A
  unfolding last_first
  close_gap [] = []
  close_gap (x ∷ []) = []
  close_gap (x ∷ y ∷ ys) = last_first y ys

  -- `none` is the panic of an index out of range.
  unfoldable pub swap_remove : List A → ℕ → Option (A × List A)
  unfolding close_gap
  swap_remove [] i = none
  swap_remove (x ∷ xs) zero = some (x, close_gap (x ∷ xs))
  swap_remove (x ∷ xs) (suc i) = elim (swap_remove xs i) [
    | none ↦ none
    | some (y, ys) ↦ some (y, x ∷ ys)
  ]

  last_first-perm : (x : A) (ys : List A) → Perm (last_first x ys) (x ∷ ys)
  unfolding last_first
  last_first-perm x [] = Perm.refl (x ∷ [])
  last_first-perm x (y ∷ ys) = go (last_first y ys) (last_first-perm y ys)
    where
      go :
          (zs : List A)
          → Perm zs (y ∷ ys)
          → Perm (elim zs [ [] ↦ x ∷ [] | z ∷ zs ↦ z ∷ x ∷ zs ]) (x ∷ y ∷ ys)
      go [] p = Perm.cons x p
      go (z ∷ zs) p = Perm.trans (Perm.swap x z zs) (Perm.cons x p)

  pub close_gap-perm : (x : A) (xs : List A) → Perm (close_gap (x ∷ xs)) xs
  unfolding close_gap
  close_gap-perm x [] = Perm.refl []
  close_gap-perm x (y ∷ ys) = last_first-perm y ys

  pub swap_remove_at :
      (before : List A) (x : A) (xs : List A)
      → swap_remove (before ++ x ∷ xs) (length before) ≡ some (x, before ++ close_gap (x ∷ xs))
  unfolding swap_remove
  swap_remove_at [] x xs = refl
  swap_remove_at (b ∷ before) x xs = rw (swap_remove_at before x xs, swap_remove)

  pub get_elem?_at :
      (before : List A) (x : A) (xs : List A)
      → get_elem? (before ++ x ∷ xs) (length before) ≡ some x
  get_elem?_at [] x xs = refl
  get_elem?_at (b ∷ before) x xs = get_elem?_at before x xs

  length-last_first : (x : A) (ys : List A) → length (last_first x ys) ≡ suc (length ys)
  unfolding last_first
  length-last_first x [] = refl
  length-last_first x (y ∷ ys) = ground (arith, length-last_first y ys)

  pub length-close_gap : (x : A) (xs : List A) → length (close_gap (x ∷ xs)) ≡ length xs
  unfolding close_gap
  length-close_gap x [] = refl
  length-close_gap x (y ∷ ys) = length-last_first y ys

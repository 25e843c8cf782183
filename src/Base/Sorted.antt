-- ===== src/Base/Sorted.antt =====
-- Sorting by a test that does not contradict a number: the number then ascends.
use Prim.Native.Nat.{ℕ, ◌≤◌}
use mathlib.Core.Path.{◌≡◌}
use mathlib.Core.Bool.{Bool, true, false}
use mathlib.Core.Logic.{inl, inr}
use mathlib.Core.List.{List, [], ◌∷◌}
use package.openddil_demo.Base.Tests.{Bool-cases}
use package.openddil_demo.Base.Sort.{
  insert_sorted, sort_by, All-insert_sorted, All-le_trans, Ascends,
}

module _ {ℓ} {A : Type ℓ} (f : A → ℕ) (le : A → A → Bool)
    (up : (a b : A) → le a b ≡ true → f a ≤ f b)
    (down : (a b : A) → le a b ≡ false → f b ≤ f a) where
  insert-Ascends : (x : A) (ys : List A) → Ascends f ys → Ascends f (insert_sorted le x ys)
  unfolding insert_sorted
  insert-Ascends x [] h = (tt, tt)
  insert-Ascends x (y ∷ ys) (a, h) = elim (Bool-cases (le x y)) [
    | inl e ↦ rw e ((up x y e, All-le_trans f x y ys (up x y e) a), (a, h))
    | inr e ↦
        rw e (All-insert_sorted le (λ z. f y ≤ f z) x ys (down x y e) a, insert-Ascends x ys h)
  ]

  pub sort_by-Ascends : (xs : List A) → Ascends f (sort_by le xs)
  unfolding sort_by
  sort_by-Ascends [] = tt
  sort_by-Ascends (x ∷ xs) = insert-Ascends x (sort_by le xs) (sort_by-Ascends xs)

-- ===== src/Base/Groups.antt =====
-- Grouping by a text: a JavaScript map of lists, in the order in which the keys first came.
use Prim.Native.Nat.{ℕ, ◌+◌}
use mathlib.Core.Path.{◌≡◌, refl}
use mathlib.Core.List.{List, [], ◌∷◌, ◌++◌, map}
use native.Mathlib.Omega.{arith}
use Prim.Native.String.{String}
use text.Mathlib.Text.{◌==◌}
use package.openddil_demo.Base.Tests.{if◌then◌else◌}
use package.openddil_demo.Base.Dict.{Dict}
use package.openddil_demo.Base.Lists.{sum_by, sum_by-append}
use package.openddil_demo.Base.Sort.{sort_by, text_le, sum_by-sort_by}

-- a map of lists, to one of which an entry is pushed
module _ {ℓ} {A : Type ℓ} where
  unfoldable pub push_group : String → A → Dict (List A) → Dict (List A)
  push_group k r [] = (k, r ∷ []) ∷ []
  push_group k r ((j, g) ∷ d) =
      let rest = push_group k r d in if j == k then (j, g ++ (r ∷ [])) ∷ d else (j, g) ∷ rest

  unfoldable pub group_from : (A → String) → List A → Dict (List A) → Dict (List A)
  unfolding push_group
  group_from key [] d = d
  group_from key (r ∷ rs) d = group_from key rs (push_group (key r) r d)

  -- the groups in the order of their keys
  unfoldable pub sorted_groups : (A → String) → List A → Dict (List A)
  unfolding group_from
  sorted_groups key rows =
      sort_by (λ (a b : String × List A). text_le a.0 b.0) (group_from key rows [])

abbrev pub group_sum {ℓ} : {A : Type ℓ} → (A → ℕ) → String × List A → ℕ
group_sum f (k, g) = sum_by f g

module _ {ℓ} {A : Type ℓ} (key : A → String) (f : A → ℕ) where
  sum_by-push_group :
      (k : String) (r : A) (d : Dict (List A))
      → sum_by (group_sum f) (push_group k r d) ≡ f r + sum_by (group_sum f) d
  unfolding push_group
  sum_by-push_group k r [] = omega arith
  sum_by-push_group k r ((j, g) ∷ d) =
      ground (arith, sum_by-push_group k r d, sum_by-append f g (r ∷ []))

  pub sum_by-group_from :
      (rows : List A) (d : Dict (List A))
      → sum_by (group_sum f) (group_from key rows d) ≡ sum_by f rows + sum_by (group_sum f) d
  unfolding group_from
  sum_by-group_from [] d = omega arith
  sum_by-group_from (r ∷ rows) d =
      omega (arith, sum_by-group_from rows (push_group (key r) r d), sum_by-push_group (key r) r d)

  -- grouping keeps every total
  pub sum_by-sorted_groups :
      (rows : List A) → sum_by (group_sum f) (sorted_groups key rows) ≡ sum_by f rows
  unfolding sorted_groups
  sum_by-sorted_groups rows = omega (
    arith,
    sum_by-sort_by (λ (a b : String × List A). text_le a.0 b.0) (group_sum f)
        (group_from key rows []),
    sum_by-group_from rows [],
  )

pub sum_by-map {ℓ κ} :
    {A : Type ℓ} {B : Type κ} (g : A → B) (f : B → ℕ) (h : A → ℕ)
    → ((a : A) → f (g a) ≡ h a)
    → (xs : List A) → sum_by f (map g xs) ≡ sum_by h xs
sum_by-map g f h e [] = refl
sum_by-map g f h e (x ∷ xs) = omega (arith, e x, sum_by-map g f h e xs)

-- ===== src/Base/Sort.antt =====
-- `Array.prototype.sort`, which is stable, by a test `le`; and the order of texts, by UTF-16 units.
use Prim.Native.Nat.{ℕ, suc, ◌≤◌, ◌+◌, ◌-◌, ◌/◌, ◌%◌}
use Prim.Native.Char.{code}
use Prim.Native.String.{String}
use mathlib.Core.Path.{◌≡◌, refl, ◌∙◌}
use mathlib.Core.Bool.{Bool, true, false, ◌||◌, ◌&&◌, not}
use mathlib.Core.Logic.{inl, inr}
use mathlib.Core.List.{List, [], ◌∷◌}
use native.Mathlib.Omega.{arith}
use text.Mathlib.Text.{◌==◌}
use text.Mathlib.TextEquality.{eq_iff}
use package.openddil_demo.Base.Tests.{if◌then◌else◌, ltb, leb, leb→le, eqb, Bool-cases}
use package.openddil_demo.Base.Lists.{length, sum_by, any, All}

-- the code units of a text: a code point beyond the basic plane is a surrogate pair
abbrev pub utf16 : String → List ℕ
utf16 String.[] = []
utf16 (String.◌∷◌ c s) =
    let rest = utf16 s in
    if ltb (code c) 65536
    then code c ∷ rest
    else (55296 + (code c - 65536) / 1024) ∷ (56320 + (code c - 65536) % 1024) ∷ rest

abbrev pub lex_le : List ℕ → List ℕ → Bool
lex_le [] ys = true
lex_le (x ∷ xs) [] = false
lex_le (x ∷ xs) (y ∷ ys) = ltb x y || (eqb x y && lex_le xs ys)

-- `a < b || a === b`
unfoldable pub text_le : String → String → Bool
text_le a b = lex_le (utf16 a) (utf16 b)

module _ {ℓ} {A : Type ℓ} (le : A → A → Bool) where
  unfoldable pub insert_sorted : A → List A → List A
  insert_sorted x [] = x ∷ []
  insert_sorted x (y ∷ ys) = if le x y then x ∷ y ∷ ys else y ∷ insert_sorted x ys

  unfoldable pub sort_by : List A → List A
  unfolding insert_sorted
  sort_by [] = []
  sort_by (x ∷ xs) = insert_sorted x (sort_by xs)

  sum_by-insert_sorted :
      (f : A → ℕ) (x : A) (ys : List A) → sum_by f (insert_sorted x ys) ≡ f x + sum_by f ys
  unfolding insert_sorted
  sum_by-insert_sorted f x [] = refl
  sum_by-insert_sorted f x (y ∷ ys) = ground (arith, sum_by-insert_sorted f x ys)

  -- a total does not depend on the order
  pub sum_by-sort_by : (f : A → ℕ) (xs : List A) → sum_by f (sort_by xs) ≡ sum_by f xs
  unfolding sort_by
  sum_by-sort_by f [] = refl
  sum_by-sort_by f (x ∷ xs) =
      omega (arith, sum_by-insert_sorted f x (sort_by xs), sum_by-sort_by f xs)

  length-insert_sorted : (x : A) (ys : List A) → length (insert_sorted x ys) ≡ suc (length ys)
  unfolding insert_sorted
  length-insert_sorted x [] = refl
  length-insert_sorted x (y ∷ ys) = ground (arith, length-insert_sorted x ys)

  pub length-sort_by : (xs : List A) → length (sort_by xs) ≡ length xs
  unfolding sort_by
  length-sort_by [] = refl
  length-sort_by (x ∷ xs) = omega (arith, length-insert_sorted x (sort_by xs), length-sort_by xs)

  any-insert_sorted :
      (p : A → Bool) (x : A) (ys : List A) → any p (insert_sorted x ys) ≡ (p x || any p ys)
  unfolding insert_sorted
  any-insert_sorted p x [] = refl
  any-insert_sorted p x (y ∷ ys) = ground (arith, any-insert_sorted p x ys)

  pub any-sort_by : (p : A → Bool) (xs : List A) → any p (sort_by xs) ≡ any p xs
  unfolding sort_by
  any-sort_by p [] = refl
  any-sort_by p (x ∷ xs) = ground (arith, any-insert_sorted p x (sort_by xs), any-sort_by p xs)

module _ {ℓ κ} {A : Type ℓ} (le : A → A → Bool) (P : A → Type κ) where
  pub All-insert_sorted : (x : A) (ys : List A) → P x → All P ys → All P (insert_sorted le x ys)
  unfolding insert_sorted
  All-insert_sorted x [] p h = (p, tt)
  All-insert_sorted x (y ∷ ys) p (q, h) = elim (Bool-cases (le x y)) [
    | inl e ↦ rw e (p, (q, h))
    | inr e ↦ rw e (q, All-insert_sorted x ys p h)
  ]

  pub All-sort_by : (xs : List A) → All P xs → All P (sort_by le xs)
  unfolding sort_by
  All-sort_by [] h = tt
  All-sort_by (x ∷ xs) (p, h) = All-insert_sorted x (sort_by le xs) p (All-sort_by xs h)

-- sorting by a number leaves the entries in its order
module _ {ℓ} {A : Type ℓ} (f : A → ℕ) where
  abbrev pub Ascends : List A → Type 0
  Ascends [] = Unit {0}
  Ascends (x ∷ xs) = All (λ y. f x ≤ f y) xs × Ascends xs

  pub All-le_trans :
      (x y : A) (ys : List A) → f x ≤ f y → All (λ z. f y ≤ f z) ys → All (λ z. f x ≤ f z) ys
  All-le_trans x y [] h a = tt
  All-le_trans x y (z ∷ ys) h (p, a) = (omega arith, All-le_trans x y ys h a)

  insert_sorted-Ascends :
      (x : A) (ys : List A) → Ascends ys → Ascends (insert_sorted (λ a b. leb (f a) (f b)) x ys)
  unfolding insert_sorted
  insert_sorted-Ascends x [] h = (tt, tt)
  insert_sorted-Ascends x (y ∷ ys) (a, h) = elim (Bool-cases (leb (f x) (f y))) [
    | inl e ↦ rw e ((leb→le _ _ e, All-le_trans x y ys (leb→le _ _ e) a), (a, h))
    | inr e ↦ rw e (
      All-insert_sorted (λ a b. leb (f a) (f b)) (λ z. f y ≤ f z) x ys (ground arith) a,
      insert_sorted-Ascends x ys h,
    )
  ]

  pub sort_by-Ascends : (xs : List A) → Ascends (sort_by (λ a b. leb (f a) (f b)) xs)
  unfolding sort_by
  sort_by-Ascends [] = tt
  sort_by-Ascends (x ∷ xs) =
      insert_sorted-Ascends x (sort_by (λ a b. leb (f a) (f b)) xs) (sort_by-Ascends xs)

-- `has` and `add` of a set of texts, whose values come in the order of their first addition
abbrev pub holds_text : String → List String → Bool
holds_text k set = any (λ j. j == k) set

unfoldable pub distinct_from : List String → List String → List String
distinct_from seen [] = []
distinct_from seen (k ∷ ks) =
    let old = distinct_from seen ks in
    let new = k ∷ distinct_from (k ∷ seen) ks in if holds_text k seen then old else new

unfoldable pub distinct : List String → List String
unfolding distinct_from
distinct ks = distinct_from [] ks

abbrev pub IsDistinct : List String → Type 0
IsDistinct [] = Unit {0}
IsDistinct (k ∷ ks) = (holds_text k ks ≡ false) × IsDistinct ks

holds-distinct_from :
    (k : String) (seen ks : List String)
    → holds_text k (distinct_from seen ks) ≡ (holds_text k ks && not (holds_text k seen))
unfolding distinct_from
holds-distinct_from k seen [] = refl
holds-distinct_from k seen (j ∷ ks) =
    ground (arith, holds-distinct_from k seen ks, holds-distinct_from k (j ∷ seen) ks, eq_iff j k)

distinct_from-IsDistinct : (seen ks : List String) → IsDistinct (distinct_from seen ks)
unfolding distinct_from
distinct_from-IsDistinct seen [] = tt
distinct_from-IsDistinct seen (k ∷ ks) = elim (Bool-cases (holds_text k seen)) [
  | inl e ↦ rw e (distinct_from-IsDistinct seen ks)
  | inr e ↦ rw e (
    ground (arith, holds-distinct_from k (k ∷ seen) ks, eq_iff k k),
    distinct_from-IsDistinct (k ∷ seen) ks,
  )
]

pub distinct-IsDistinct : (ks : List String) → IsDistinct (distinct ks)
unfolding distinct
distinct-IsDistinct ks = distinct_from-IsDistinct [] ks

pub holds-distinct : (k : String) (ks : List String) → holds_text k (distinct ks) ≡ holds_text k ks
unfolding distinct
holds-distinct k ks = ground (arith, holds-distinct_from k [] ks)

module _ (le : String → String → Bool) where
  insert_sorted-IsDistinct :
      (k : String) (ks : List String)
      → holds_text k ks ≡ false
      → IsDistinct ks
      → IsDistinct (insert_sorted le k ks)
  unfolding insert_sorted
  insert_sorted-IsDistinct k [] h d = (refl, tt)
  insert_sorted-IsDistinct k (j ∷ ks) h (e, d) = elim (Bool-cases (le k j)) [
    | inl l ↦ rw l (h, (e, d))
    | inr l ↦ rw l (
      ground (arith, any-insert_sorted le (λ (i : String). i == j) k ks, eq_iff j k, eq_iff k j),
      insert_sorted-IsDistinct k ks (ground arith) d,
    )
  ]

  pub sort_by-IsDistinct : (ks : List String) → IsDistinct ks → IsDistinct (sort_by le ks)
  unfolding sort_by
  sort_by-IsDistinct [] d = tt
  sort_by-IsDistinct (k ∷ ks) (h, d) =
      insert_sorted-IsDistinct k (sort_by le ks) (any-sort_by le (λ (i : String). i == k) ks ∙ h)
        (sort_by-IsDistinct ks d)

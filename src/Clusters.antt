-- ===== src/Clusters.antt =====
-- frontend/src/lib/clusterKinds.ts: how assets that stand close together are drawn as one cluster. This
-- file has the union-find and the groups that `groupsOf` makes of it. The array `parent` is a function:
-- the indices of the source are in range. Kinds has what a cluster shows.
pub mod Kinds
pub mod Labels
pub mod Search
pub mod Grouping
pub mod Partition
mod Tests
use openddil_demo.Base.{
  ℕ, zero, suc, ◌+◌, ◌*◌, Bool, true, false, ◌||◌, ◌&&◌, not, Option, none, some, List, [], ◌∷◌,
  ◌++◌, map, eqb, ltb, leb, if◌then◌else◌, length,
}
use openddil_demo.Base.Sort.{sort_by}

-- `a[i] = v`
abbrev pub set : (ℕ → ℕ) → ℕ → ℕ → ℕ → ℕ
set p i v j = if eqb j i then v else p j

-- the root of `i`, and the array with the path to it halved
unfoldable pub find : ℕ → (ℕ → ℕ) → ℕ → (ℕ → ℕ) × ℕ
find zero p i = (p, i)
find (suc fuel) p i = elim (eqb (p i) i) [
  | true ↦ (p, i)
  | false ↦ find fuel (set p i (p (p i))) (p (p i))
]

pub record MstEdge : Type 0 where
  pub a : ℕ
  pub b : ℕ

-- `parent[find(e.a)] = find(e.b)`: the index is computed before the value
unfoldable pub merge : ℕ → (ℕ → ℕ) → MstEdge → ℕ → ℕ
unfolding find
merge fuel p e = let (p1, ra) = find fuel p e.a in let (p2, rb) = find fuel p1 e.b in set p2 ra rb

-- the edges whose flag is set; a flag that is missing is not
unfoldable pub merged_edges : List MstEdge → List Bool → List MstEdge
merged_edges [] flags = []
merged_edges (e ∷ edges) [] = []
merged_edges (e ∷ edges) (flag ∷ flags) =
    let rest = merged_edges edges flags in if flag then e ∷ rest else rest

unfoldable pub merge_all : ℕ → (ℕ → ℕ) → List MstEdge → ℕ → ℕ
unfolding merge
merge_all fuel p [] = p
merge_all fuel p (e ∷ edges) = merge_all fuel (merge fuel p e) edges

-- a member of the list at a key of a map, or the first of a new list
unfoldable pub bucket : ℕ → ℕ → List (ℕ × List ℕ) → List (ℕ × List ℕ)
bucket k i [] = (k, i ∷ []) ∷ []
bucket k i ((j, g) ∷ d) =
    let rest = bucket k i d in if eqb j k then (j, g ++ (i ∷ [])) ∷ d else (j, g) ∷ rest

-- the second loop: `count` indices from `i` on, each into the list of its root
unfoldable pub collect : ℕ → ℕ → ℕ → (ℕ → ℕ) → List (ℕ × List ℕ) → List (ℕ × List ℕ)
unfolding find bucket
collect fuel zero i p d = d
collect fuel (suc count) i p d =
    let (q, r) = find fuel p i in collect fuel count (suc i) q (bucket r i d)

abbrev pub head_or : ℕ → List ℕ → ℕ
head_or d [] = d
head_or d (x ∷ xs) = x

abbrev pub values : List (ℕ × List ℕ) → List (List ℕ)
values [] = []
values ((k, g) ∷ d) = g ∷ values d

-- a path is no longer than the number of merges, which is the fuel
unfoldable pub groups_of : ℕ → List MstEdge → List Bool → List (List ℕ)
unfolding merged_edges merge_all collect
groups_of n edges merged =
    let chosen = merged_edges edges merged in
    let fuel = length chosen in
    sort_by (λ (x y : List ℕ). leb (head_or 0 x) (head_or 0 y))
      (values (collect fuel n 0 (merge_all fuel (λ i. i) chosen) []))

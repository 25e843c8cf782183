-- ===== src/Clusters/Partition.antt =====
-- The groups of `groupsOf` are the classes of the merged edges.
use openddil_demo.Base.{
  ℕ, zero, suc, ◌≤◌, ◌<◌, ◌≡◌, refl, sym, ap, ◌∙◌, ◌↔◌, Bool, true, ◌&&◌, List, [], ◌∷◌, arith, eqb,
  eqb→eq, leb, Bool-cases, inl, inr, length, any, All, subst,
}
use openddil_demo.Base.Sort.{sort_by, any-sort_by}
use openddil_demo.Clusters.{
  find, MstEdge, merged_edges, merge_all, bucket, collect, head_or, values, groups_of,
}
use openddil_demo.Clusters.Labels.{Forest, find-Found, relabel, labels, start-Grown}
use openddil_demo.Clusters.Grouping.{
  Buckets, has_index, is_together, collect_by, together-collect_by,
}

collect-labels :
    (fuel count i : ℕ) (c h p : ℕ → ℕ) (d : Buckets)
    → Forest p c h
    → ((j : ℕ) → h j ≤ fuel)
    → collect fuel count i p d ≡ collect_by c count i d
unfolding collect collect_by
collect-labels fuel zero i c h p d f low = refl
collect-labels fuel (suc count) i c h p d f low =
    let r = find-Found c h fuel p i f (low i) in
    rw (sym r.label) (
      collect-labels fuel count (suc i) c h (find fuel p i).0 (bucket (find fuel p i).1 i d)
        r.forest low)

-- what the function is to compute: the lists of the final labels, by their first index
unfoldable pub groups_by : (ℕ → ℕ) → ℕ → List (List ℕ)
groups_by c n =
    sort_by (λ (x y : List ℕ). leb (head_or 0 x) (head_or 0 y)) (values (collect_by c n 0 []))

-- The union-find refines the plain labels: whatever paths it halves, the groups are those of labels
-- that each merge rewrites throughout, and the fuel of one step for each merge is enough.
pub groups_of_refines :
    (n : ℕ) (edges : List MstEdge) (merged : List Bool)
    → groups_of n edges merged ≡ groups_by (labels (λ i. i) (merged_edges edges merged)) n
unfolding groups_of groups_by
groups_of_refines n edges merged =
    let chosen = merged_edges edges merged in
    let g = start-Grown chosen in
    ap (λ d. sort_by (λ (x y : List ℕ). leb (head_or 0 x) (head_or 0 y)) (values d))
      (collect-labels (length chosen) n 0 (labels (λ i. i) chosen) g.height
        (merge_all (length chosen) (λ i. i) chosen) [] g.forest g.low)

abbrev pub is_edge : MstEdge → List MstEdge → Bool
is_edge e edges = any (λ (x : MstEdge). eqb x.a e.a && eqb x.b e.b) edges

-- joined by a chain of edges
pub data Connected (edges : List MstEdge) : ℕ → ℕ → Type 0 where
  here : (i : ℕ) → Connected edges i i
  edge : (e : MstEdge) → is_edge e edges ≡ true → Connected edges e.a e.b
  back : {i j : ℕ} → Connected edges i j → Connected edges j i
  chain : {i j k : ℕ} → Connected edges i j → Connected edges j k → Connected edges i k

labels-respect :
    (c : ℕ → ℕ) (edges : List MstEdge) (i j : ℕ) → c i ≡ c j → labels c edges i ≡ labels c edges j
unfolding labels
labels-respect c [] i j h = h
labels-respect c (e ∷ edges) i j h = labels-respect (relabel c e) edges i j (ground arith)

labels-edge :
    (c : ℕ → ℕ) (edges : List MstEdge) (e : MstEdge)
    → is_edge e edges ≡ true
    → labels c edges e.a ≡ labels c edges e.b
unfolding labels
labels-edge c [] e h = absurd (ground arith)
labels-edge c (x ∷ edges) e h = elim (Bool-cases (eqb x.a e.a && eqb x.b e.b)) [
  | inl k ↦
      labels-respect (relabel c x) edges e.a e.b (ground (arith, eqb→eq x.a e.a, eqb→eq x.b e.b))
  | inr k ↦ labels-edge (relabel c x) edges e (ground arith)
]

Connected-labels :
    {edges : List MstEdge} {i j : ℕ}
    → Connected edges i j
    → labels (λ k. k) edges i ≡ labels (λ k. k) edges j
Connected-labels (here i) = refl
Connected-labels {edges} (edge e h) = labels-edge (λ k. k) edges e h
Connected-labels (back p) = sym (Connected-labels p)
Connected-labels (chain p q) = Connected-labels p ∙ Connected-labels q

module _ (all_edges : List MstEdge) where
  -- equal labels are joined
  abbrev Joins : (ℕ → ℕ) → Type 0
  Joins c = (i j : ℕ) → c i ≡ c j → Connected all_edges i j

  relabel-Joins :
      (c : ℕ → ℕ) (e : MstEdge) → is_edge e all_edges ≡ true → Joins c → Joins (relabel c e)
  relabel-Joins c e m h i j r = elim (Bool-cases (eqb (c i) (c e.a))) [
    | inl u ↦ elim (Bool-cases (eqb (c j) (c e.a))) [
      | inl v ↦ h i j (ground (arith, eqb→eq (c i) (c e.a), eqb→eq (c j) (c e.a)))
      | inr v ↦ chain (h i e.a (eqb→eq (c i) (c e.a) u)) (chain (edge e m) (h e.b j (ground arith)))
    ]
    | inr u ↦ elim (Bool-cases (eqb (c j) (c e.a))) [
      | inl v ↦
          chain (h i e.b (ground arith))
            (chain (back (edge e m)) (h e.a j (sym (eqb→eq (c j) (c e.a) v))))
      | inr v ↦ h i j (ground arith)
    ]
  ]

  labels-Joins :
      (c : ℕ → ℕ) (edges : List MstEdge)
      → All (λ e. is_edge e all_edges ≡ true) edges
      → Joins c
      → Joins (labels c edges)
  unfolding labels
  labels-Joins c [] m h = h
  labels-Joins c (e ∷ edges) (m, ms) h = labels-Joins (relabel c e) edges ms (relabel-Joins c e m h)

is_edge-cons :
    (x : MstEdge) (all_edges edges : List MstEdge)
    → All (λ e. is_edge e all_edges ≡ true) edges
    → All (λ e. is_edge e (x ∷ all_edges) ≡ true) edges
is_edge-cons x all_edges [] h = tt
is_edge-cons x all_edges (y ∷ edges) (m, h) = (ground arith, is_edge-cons x all_edges edges h)

is_edge-All : (edges : List MstEdge) → All (λ e. is_edge e edges ≡ true) edges
is_edge-All [] = tt
is_edge-All (x ∷ edges) = (ground arith, is_edge-cons x edges edges (is_edge-All edges))

labels-Connected :
    (edges : List MstEdge) (i j : ℕ)
    → labels (λ k. k) edges i ≡ labels (λ k. k) edges j
    → Connected edges i j
labels-Connected edges =
    labels-Joins edges (λ k. k) edges (is_edge-All edges)
      (λ i j e. subst (Connected edges i) e (here i))

-- Two items stand in one group exactly if both are there and merged edges join them.
pub groups_of-Connected :
    (n : ℕ) (edges : List MstEdge) (merged : List Bool) (i j : ℕ)
    → (is_together i j (groups_of n edges merged) ≡ true)
      ↔ ((i < n) × (j < n) × Connected (merged_edges edges merged) i j)
unfolding groups_by
groups_of-Connected n edges merged i j =
    let chosen = merged_edges edges merged in
    let c = labels (λ k. k) chosen in
    let same = together-collect_by c n i j in
    let view : is_together i j (groups_of n edges merged)
        ≡ is_together i j (values (collect_by c n 0 [])) =
      ap (is_together i j) (groups_of_refines n edges merged)
      ∙ any-sort_by (λ (x y : List ℕ). leb (head_or 0 x) (head_or 0 y))
          (λ g. has_index i g && has_index j g) (values (collect_by c n 0 [])) in
    (
      λ t. let (p, q, e) = same.0 (sym view ∙ t) in (p, q, labels-Connected chosen i j e),
      λ (p, q, r). view ∙ same.1 (p, q, Connected-labels r),
    )

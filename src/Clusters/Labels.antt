-- ===== src/Clusters/Labels.antt =====
-- The array of a union-find is a forest that carries labels: every index has the label of its parent,
-- a root is its own label, and the height falls towards the root.
use openddil_demo.Base.{
  ℕ, zero, suc, ◌+◌, ◌≤◌, ◌<◌, ◌≡◌, refl, sym, ap, ◌∙◌, true, false, List, [], ◌∷◌, arith, eqb,
  eqb→eq, if◌then◌else◌, Bool-cases, inl, inr, length, subst,
}
use openddil_demo.Clusters.{set, find, MstEdge, merge, merge_all}

pub record Forest (p c h : ℕ → ℕ) : Type 0 where
  pub same : (i : ℕ) → c (p i) ≡ c i
  pub root : (i : ℕ) → eqb (p i) i ≡ true → (c i ≡ i) × (h i ≡ 0)
  pub down : (i : ℕ) → eqb (p i) i ≡ false → h (p i) < h i

-- what a search leaves: the same forest, and the label
pub record Found (c h : ℕ → ℕ) (i : ℕ) (q : ℕ → ℕ) (r : ℕ) : Type 0 where
  pub forest : Forest q c h
  pub label : r ≡ c i

module _ (c h : ℕ → ℕ) where
  abbrev halved : (ℕ → ℕ) → ℕ → ℕ → ℕ
  halved p i = set p i (p (p i))

  grandparent : (p : ℕ → ℕ) (i : ℕ) → Forest p c h → eqb (p i) i ≡ false → h (p (p i)) < h i
  grandparent p i f n = elim (Bool-cases (eqb (p (p i)) (p i))) [
    | inl e ↦ ground (arith, f.down i n, eqb→eq (p (p i)) (p i) e)
    | inr e ↦ omega (arith, f.down i n, f.down (p i) e)
  ]

  halved-Forest : (p : ℕ → ℕ) (i : ℕ) → Forest p c h → eqb (p i) i ≡ false → Forest (halved p i) c h
  halved-Forest p i f n =
      let low = grandparent p i f n in
      record {
        same = λ j. ground (arith, f.same j, f.same i, f.same (p i));
        root = λ j e. elim (Bool-cases (eqb j i)) [
          | inl k ↦
              let own : p (p i) ≡ i = ground (arith, eqb→eq j i k, eqb→eq (halved p i j) j e) in
              let up : h (p (p i)) ≡ h i = ap h own in absurd (omega arith)
          | inr k ↦ f.root j (ground arith)
        ];
        down = λ j e. elim (Bool-cases (eqb j i)) [
          | inl k ↦ let here : h j ≡ h i = ap h (eqb→eq j i k) in ground arith
          | inr k ↦ ground (arith, f.down j)
        ];
      }

find_stop : (fuel : ℕ) (p : ℕ → ℕ) (i : ℕ) → eqb (p i) i ≡ true → find (suc fuel) p i ≡ (p, i)
unfolding find
find_stop fuel p i e = rw (e, find) refl

find_go :
    (fuel : ℕ) (p : ℕ → ℕ) (i : ℕ)
    → eqb (p i) i ≡ false
    → find (suc fuel) p i ≡ find fuel (set p i (p (p i))) (p (p i))
unfolding find
find_go fuel p i e = rw (e, find) refl

module _ (c h : ℕ → ℕ) where
  stopped : (p : ℕ → ℕ) (i : ℕ) → Forest p c h → eqb (p i) i ≡ true → Found c h i p i
  stopped p i f e = let (own, low) = f.root i e in record { forest = f; label = sym own }

  pub find-Found :
      (fuel : ℕ) (p : ℕ → ℕ) (i : ℕ)
      → Forest p c h
      → h i ≤ fuel
      → Found c h i (find fuel p i).0 (find fuel p i).1
  unfolding find
  find-Found zero p i f le = elim (Bool-cases (eqb (p i) i)) [
    | inl e ↦ stopped p i f e
    | inr e ↦ absurd (omega (arith, f.down i e))
  ]
  find-Found (suc fuel) p i f le = elim (Bool-cases (eqb (p i) i)) [
    | inl e ↦ rw (find_stop fuel p i e) (stopped p i f e)
    | inr e ↦
        let low = grandparent c h p i f e in
        let rest =
          find-Found fuel (halved c h p i) (p (p i)) (halved-Forest c h p i f e) (omega arith) in
        rw (find_go fuel p i e)
          (record { forest = rest.forest; label = rest.label ∙ (f.same (p i) ∙ f.same i) })
  ]

  -- a label is a root
  pub label_root :
      (p : ℕ → ℕ) → Forest p c h → (fuel i : ℕ) → h i ≤ fuel → eqb (p (c i)) (c i) ≡ true
  label_root p f zero i le = elim (Bool-cases (eqb (p i) i)) [
    | inl e ↦ let (own, low) = f.root i e in ground arith
    | inr e ↦ absurd (omega (arith, f.down i e))
  ]
  label_root p f (suc fuel) i le = elim (Bool-cases (eqb (p i) i)) [
    | inl e ↦ let (own, low) = f.root i e in ground arith
    | inr e ↦
        let up = f.down i e in
        subst (λ r. eqb (p r) r ≡ true) (f.same i) (label_root p f fuel (p i) (omega arith))
  ]

-- the labels after `b`'s class takes in `a`'s, and the heights
abbrev pub relabel : (ℕ → ℕ) → MstEdge → ℕ → ℕ
relabel c e i = if eqb (c i) (c e.a) then c e.b else c i

abbrev pub raise : (c h : ℕ → ℕ) → MstEdge → ℕ → ℕ
raise c h e i = if eqb (c e.a) (c e.b) then h i else if eqb (c i) (c e.a) then suc (h i) else h i

module _ (c h q : ℕ → ℕ) (f : Forest q c h) (e : MstEdge) where
  abbrev linked : ℕ → ℕ
  linked = set q (c e.a) (c e.b)

  own_label : (i : ℕ) → (c (c i) ≡ c i) × (h (c i) ≡ 0)
  own_label i = f.root (c i) (label_root c h q f (h i) i (omega arith))

  -- a statement of every index holds at `a`'s root and at each other one
  at_root_or_not {κ} :
      (P : ℕ → Type κ) → P (c e.a) → ((j : ℕ) → eqb j (c e.a) ≡ false → P j) → (j : ℕ) → P j
  at_root_or_not P here other j = elim (Bool-cases (eqb j (c e.a))) [
    | inl k ↦ subst P (sym (eqb→eq j (c e.a) k)) here
    | inr k ↦ other j k
  ]

  linked-same : (j : ℕ) → relabel c e (linked j) ≡ relabel c e j
  linked-same =
      at_root_or_not (λ j. relabel c e (linked j) ≡ relabel c e j)
        (ground (arith, own_label e.a, own_label e.b)) (λ j k. ground (arith, f.same j))

  linked-root : (j : ℕ) → eqb (linked j) j ≡ true → (relabel c e j ≡ j) × (raise c h e j ≡ 0)
  linked-root =
      at_root_or_not (λ j. eqb (linked j) j ≡ true → (relabel c e j ≡ j) × (raise c h e j ≡ 0))
        (λ r. ground (arith, own_label e.a, own_label e.b)) (λ j k r. ground (arith, f.root j))

  linked-down : (j : ℕ) → eqb (linked j) j ≡ false → raise c h e (linked j) < raise c h e j
  linked-down =
      at_root_or_not (λ j. eqb (linked j) j ≡ false → raise c h e (linked j) < raise c h e j)
        (λ r. ground (arith, own_label e.a, own_label e.b))
        (λ j k r. ground (arith, f.down j, f.same j))

  linked-Forest : Forest linked (relabel c e) (raise c h e)
  linked-Forest = record { same = linked-same; root = linked-root; down = linked-down }

-- a merge relabels one class
merge-Forest :
    (c h p : ℕ → ℕ) (fuel : ℕ) (e : MstEdge)
    → Forest p c h
    → h e.a ≤ fuel
    → h e.b ≤ fuel
    → Forest (merge fuel p e) (relabel c e) (raise c h e)
unfolding merge
merge-Forest c h p fuel e f la lb =
    let a = find-Found c h fuel p e.a f la in
    let b = find-Found c h fuel (find fuel p e.a).0 e.b a.forest lb in
    let q = (find fuel (find fuel p e.a).0 e.b).0 in
    rw (a.label, b.label) (linked-Forest c h q b.forest e)

-- the labels after all merges: the classes without the forest
unfoldable pub labels : (ℕ → ℕ) → List MstEdge → ℕ → ℕ
labels c [] = c
labels c (e ∷ edges) = labels (relabel c e) edges

-- a forest with these labels, no higher than the fuel
pub record Grown (p c : ℕ → ℕ) (fuel : ℕ) : Type 0 where
  pub height : ℕ → ℕ
  pub forest : Forest p c height
  pub low : (i : ℕ) → height i ≤ fuel

merge_all-Grown :
    (fuel k : ℕ) (c h p : ℕ → ℕ) (edges : List MstEdge)
    → Forest p c h
    → ((i : ℕ) → h i ≤ k)
    → k + length edges ≤ fuel
    → Grown (merge_all fuel p edges) (labels c edges) fuel
unfolding merge_all labels
merge_all-Grown fuel k c h p [] f low le = record {
  height = h;
  forest = f;
  low = λ i. omega (arith, low i);
}
merge_all-Grown fuel k c h p (e ∷ edges) f low le =
    merge_all-Grown fuel (suc k) (relabel c e) (raise c h e) (merge fuel p e) edges
      (merge-Forest c h p fuel e f (omega (arith, low e.a)) (omega (arith, low e.b)))
      (λ i. ground (arith, low i)) (omega arith)

-- every index starts as the root of its own class
start-Forest : Forest (λ i. i) (λ i. i) (λ i. 0)
start-Forest = record {
  same = λ i. refl;
  root = λ i e. (refl, refl);
  down = λ i e. absurd (ground arith);
}

-- The array after all merges carries the labels of the merges.
pub start-Grown :
    (edges : List MstEdge)
    → Grown (merge_all (length edges) (λ i. i) edges) (labels (λ i. i) edges) (length edges)
start-Grown edges =
    merge_all-Grown (length edges) 0 (λ i. i) (λ i. 0) (λ i. i) edges start-Forest
      (λ i. omega arith) (omega arith)

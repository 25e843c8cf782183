-- ===== src/Clusters/Grouping.antt =====
-- The lists of a map from labels to indices: two indices stand in one list exactly if both were put in
-- and their labels agree.
use openddil_demo.Base.{
  ℕ, zero, suc, ◌+◌, ◌<◌, ◌≡◌, refl, ◌↔◌, Bool, true, false, ◌&&◌, ◌||◌, List, [], ◌∷◌, arith, eqb,
  eqb→eq, leb, ltb, if◌then◌else◌, Bool-cases, inl, inr, any, any-append,
}
use openddil_demo.Clusters.{bucket, values}

abbrev pub Buckets : Type 0
Buckets = List (ℕ × List ℕ)

abbrev pub has_index : ℕ → List ℕ → Bool
has_index i g = any (λ x. eqb x i) g

-- a group holds both
abbrev pub is_together : ℕ → ℕ → List (List ℕ) → Bool
is_together i j gs = any (λ g. has_index i g && has_index j g) gs

abbrev entry : ℕ → Buckets → List ℕ
entry k [] = []
entry k ((j, g) ∷ d) = if eqb j k then g else entry k d

abbrev has_key : ℕ → Buckets → Bool
has_key k [] = false
has_key k ((j, g) ∷ d) = eqb j k || has_key k d

abbrev IsKeyed : Buckets → Type 0
IsKeyed [] = Unit {0}
IsKeyed ((k, g) ∷ d) = (has_key k d ≡ false) × IsKeyed d

has_key-bucket : (k j i : ℕ) (d : Buckets) → has_key k (bucket j i d) ≡ (has_key k d || eqb j k)
unfolding bucket
has_key-bucket k j i [] = ground arith
has_key-bucket k j i ((l, g) ∷ d) = ground (arith, has_key-bucket k j i d)

bucket-IsKeyed : (j i : ℕ) (d : Buckets) → IsKeyed d → IsKeyed (bucket j i d)
unfolding bucket
bucket-IsKeyed j i [] h = (refl, tt)
bucket-IsKeyed j i ((l, g) ∷ d) (n, h) = elim (Bool-cases (eqb l j)) [
  | inl e ↦ rw e (n, h)
  | inr e ↦ rw e (ground (arith, has_key-bucket l j i d), bucket-IsKeyed j i d h)
]

has_index-bucket :
    (k j i x : ℕ) (d : Buckets)
    → has_index x (entry k (bucket j i d)) ≡ (has_index x (entry k d) || (eqb j k && eqb i x))
unfolding bucket
has_index-bucket k j i x [] = ground arith
has_index-bucket k j i x ((l, g) ∷ d) =
    ground (arith, has_index-bucket k j i x d, any-append (λ (y : ℕ). eqb y x) g (i ∷ []))

-- the entry of a key that is not there
no_entry : (k : ℕ) (d : Buckets) → has_key k d ≡ false → entry k d ≡ []
no_entry k [] h = refl
no_entry k ((j, g) ∷ d) h = ground (arith, no_entry k d)

in_entry :
    (k i j : ℕ) (d : Buckets)
    → (has_index i (entry k d) && has_index j (entry k d)) ≡ true
    → is_together i j (values d) ≡ true
in_entry k i j [] h = h
in_entry k i j ((l, g) ∷ d) h = ground (arith, in_entry k i j d)

record Shared (i j : ℕ) (d : Buckets) : Type 0 where
  key : ℕ
  left : has_index i (entry key d) ≡ true
  right : has_index j (entry key d) ≡ true

of_entry : (i j : ℕ) (d : Buckets) → IsKeyed d → is_together i j (values d) ≡ true → Shared i j d
of_entry i j [] h t = absurd (ground arith)
of_entry i j ((l, g) ∷ d) (n, h) t = elim (Bool-cases (has_index i g && has_index j g)) [
  | inl e ↦ record { key = l; left = ground arith; right = ground arith }
  | inr e ↦
      let s = of_entry i j d h (ground arith) in
      elim (Bool-cases (eqb l s.key)) [
        | inl k ↦ absurd (ground (arith, no_entry s.key d, eqb→eq l s.key k, s.left))
        | inr k ↦ record {
          key = s.key;
          left = ground (arith, s.left);
          right = ground (arith, s.right);
        }
      ]
]

module _ (c : ℕ → ℕ) where
  -- each index into the list of its label
  unfoldable pub collect_by : ℕ → ℕ → Buckets → Buckets
  collect_by zero i d = d
  collect_by (suc count) i d = collect_by count (suc i) (bucket (c i) i d)

  collect_by-IsKeyed : (count i : ℕ) (d : Buckets) → IsKeyed d → IsKeyed (collect_by count i d)
  unfolding collect_by
  collect_by-IsKeyed zero i d h = h
  collect_by-IsKeyed (suc count) i d h =
      collect_by-IsKeyed count (suc i) (bucket (c i) i d) (bucket-IsKeyed (c i) i d h)

  has_index-collect_by :
      (count s k x : ℕ) (d : Buckets)
      → has_index x (entry k (collect_by count s d))
        ≡ (has_index x (entry k d) || (leb s x && ltb x (s + count) && eqb (c x) k))
  unfolding collect_by
  has_index-collect_by zero s k x d = ground arith
  has_index-collect_by (suc count) s k x d = ground (
    arith,
    has_index-collect_by count (suc s) k x (bucket (c s) s d),
    has_index-bucket k (c s) s x d,
    same s x k,
  )
    where
      same : (s x k : ℕ) → (eqb (c s) k && eqb s x) ≡ (eqb (c x) k && eqb s x)
      same s x k = elim (Bool-cases (eqb s x)) [
        | inl e ↦ rw (eqb→eq s x e) refl
        | inr e ↦ ground arith
      ]

  -- Two indices stand in one list exactly if both were put in and their labels agree.
  pub together-collect_by :
      (n i j : ℕ)
      → (is_together i j (values (collect_by n 0 [])) ≡ true) ↔ ((i < n) × (j < n) × (c i ≡ c j))
  together-collect_by n i j = (
    λ t.
        let s = of_entry i j (collect_by n 0 []) (collect_by-IsKeyed n 0 [] tt) t in
        ground (
          arith,
          s.left,
          s.right,
          has_index-collect_by n 0 s.key i [],
          has_index-collect_by n 0 s.key j [],
        ),
    λ (p, q, e).
        in_entry (c j) i j (collect_by n 0 []) (
          ground (arith, has_index-collect_by n 0 (c j) i [], has_index-collect_by n 0 (c j) j [])),
  )

-- ===== src/Topology/Cut.antt =====
-- The loop of buildTheaterTopology that looks for the tier which cuts a tier off.
use openddil_demo.Base.{
  ℕ, zero, suc, ◌<◌, String, ◌≡◌, ◌↔◌, refl, sym, ap, inl, inr, Bool, true, false, ◌||◌, some, List,
  [], ◌∷◌, arith, ◌==◌, eq_iff, eq_refl, length, Bool-cases, subst,
}
use openddil_demo.Base.Sort.{holds_text}
use openddil_demo.Topology.Unseen.{unseen, unseen_less, unseen_bound}
use openddil_demo.Topology.{hq_node, walk}

unlike :
    (a b : String) (seen : List String)
    → holds_text a seen ≡ true
    → holds_text b seen ≡ false
    → (a == b) ≡ false
unlike a b seen h k = elim (Bool-cases (a == b)) [
  | inl e ↦
      let there : holds_text b seen ≡ true =
        subst (λ x. holds_text x seen ≡ true) ((eq_iff a b).0 e) h in
      absurd (ground arith)
  | inr e ↦ e
]

module _ (parent : String → String) (is_cut : String → Bool) (n : String) where
  -- neither HQ nor the tier `n` itself
  abbrev pub IsPassed : String → Type 0
  IsPassed p = ((p == hq_node) ≡ false) × ((n == p) ≡ false)

  -- from `p` upwards the first tier whose own line is down is `v`, so many lines away; HQ and `n` are not
  -- on the way
  abbrev pub IsCut : ℕ → String → String → Type 0
  IsCut zero p v = IsPassed p × (is_cut p ≡ true) × (p ≡ v)
  IsCut (suc steps) p v = IsPassed p × (is_cut p ≡ false) × IsCut steps (parent p) v

  -- the distance is unique
  IsCut-steps : (i j : ℕ) (p v w : String) → IsCut i p v → IsCut j p w → i ≡ j
  IsCut-steps zero zero p v w c d = refl
  IsCut-steps zero (suc j) p v w (a, b, c) (x, y, z) = absurd (ground arith)
  IsCut-steps (suc i) zero p v w (a, b, c) (x, y, z) = absurd (ground arith)
  IsCut-steps (suc i) (suc j) p v w (a, b, c) (x, y, z) =
      ap suc (IsCut-steps i j (parent p) v w c z)

  walk-IsCut :
      (fuel : ℕ) (p v : String) (seen : List String)
      → holds_text n seen ≡ true
      → walk parent is_cut fuel p seen ≡ some v
      → (steps : ℕ) × IsCut steps p v
  unfolding walk
  walk-IsCut zero p v seen own h = absurd (ground arith)
  walk-IsCut (suc fuel) p v seen own h = elim (Bool-cases (p == hq_node || holds_text p seen)) [
    | inl e ↦ absurd (ground arith)
    | inr e ↦
        let passed : IsPassed p = (ground arith, unlike n p seen own (ground arith)) in
        elim (Bool-cases (is_cut p)) [
          | inl c ↦ (0, (passed, c, ground arith))
          | inr c ↦
              let (steps, cut) =
                walk-IsCut fuel (parent p) v (p ∷ seen) (ground arith) (ground arith) in
              (suc steps, (passed, c, cut))
        ]
  ]

  -- one step up: every tier that was seen is farther from `v`
  farther :
      (steps : ℕ) (p v : String) (seen : List String)
      → IsCut (suc steps) p v
      → ((s : String)
          → holds_text s seen ≡ true
          → (n == s) ≡ false
          → (m : ℕ) → IsCut m s v
          → suc steps < m)
      → (s : String) → holds_text s (p ∷ seen) ≡ true
      → (n == s) ≡ false
      → (m : ℕ) → IsCut m s v
      → steps < m
  farther steps p v seen c far s h ns m d = elim (Bool-cases (p == s)) [
    | inl e ↦
        let same : p ≡ s = (eq_iff p s).0 e in
        let eq : m ≡ suc steps =
          IsCut-steps m (suc steps) p v v (subst (λ x. IsCut m x v) (sym same) d) c in
        omega arith
    | inr e ↦ let less : suc steps < m = far s (ground arith) ns m d in omega arith
  ]

  IsCut-walk :
      (drawn : List String)
      → ((q : String) → (parent q == hq_node) ≡ false → holds_text (parent q) drawn ≡ true)
      → (fuel steps : ℕ) (p v : String) (seen : List String) → IsCut steps p v
      → ((p == hq_node) ≡ false → holds_text p drawn ≡ true)
      → ((s : String)
          → holds_text s seen ≡ true
          → (n == s) ≡ false
          → (m : ℕ) → IsCut m s v
          → steps < m)
      → unseen drawn seen < fuel
      → walk parent is_cut fuel p seen ≡ some v
  unfolding walk
  IsCut-walk drawn close zero steps p v seen c at far le = absurd (omega arith)
  IsCut-walk drawn close (suc fuel) zero p v seen (a, b, c) at far le =
      elim (Bool-cases (holds_text p seen)) [
        | inl e ↦ let less : 0 < 0 = far p e a.1 0 (a, b, c) in absurd (omega arith)
        | inr e ↦ ground (arith, a.0, b, c, e)
      ]
  IsCut-walk drawn close (suc fuel) (suc steps) p v seen (a, b, c) at far le =
      elim (Bool-cases (holds_text p seen)) [
        | inl e ↦
            let less : suc steps < suc steps = far p e a.1 (suc steps) (a, b, c) in
            absurd (omega arith)
        | inr e ↦
            let rest : walk parent is_cut fuel (parent p) (p ∷ seen) ≡ some v =
              IsCut-walk drawn close fuel steps (parent p) v (p ∷ seen) c (close p)
                (farther steps p v seen (a, b, c) far)
                (omega (arith, le, unseen_less drawn seen p (at a.0) e)) in
            ground (arith, a.0, b, rest, e)
      ]

  own_only :
      (steps : ℕ) (v s : String)
      → holds_text s (n ∷ []) ≡ true
      → (n == s) ≡ false
      → (m : ℕ) → IsCut m s v
      → steps < m
  own_only steps v s h k m c = absurd (ground arith)

  -- The loop, with one more unit of fuel than there are tiers drawn, finds `v` exactly if `v` is the
  -- first tier upwards whose own line is down, at whatever distance, the tiers forming a cycle or not.
  pub walk_finds :
      (drawn : List String)
      → ((q : String) → (parent q == hq_node) ≡ false → holds_text (parent q) drawn ≡ true)
      → (v : String)
      → (walk parent is_cut (suc (length drawn)) (parent n) (n ∷ []) ≡ some v)
        ↔ ((steps : ℕ) × IsCut steps (parent n) v)
  walk_finds drawn close v = (
    walk-IsCut (suc (length drawn)) (parent n) v (n ∷ []) (ground (arith, eq_refl n)),
    λ (steps, c).
        IsCut-walk drawn close (suc (length drawn)) steps (parent n) v (n ∷ []) c (close n)
          (own_only steps v) (omega (arith, unseen_bound drawn (n ∷ []))),
  )

  -- the tier that is found has a name
  pub IsCut-named :
      ((q : String) → (parent q == "") ≡ false)
      → (steps : ℕ) (p v : String) → (p == "") ≡ false
      → IsCut steps p v
      → (v == "") ≡ false
  IsCut-named named zero p v h (a, b, c) = subst (λ x. (x == "") ≡ false) c h
  IsCut-named named (suc steps) p v h (a, b, c) = IsCut-named named steps (parent p) v (named p) c

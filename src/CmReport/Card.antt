-- ===== src/CmReport/Card.antt =====
-- The fault that the card offers.
use openddil_demo.Base.{
  ◌≡◌, refl, Bool, true, false, ◌&&◌, not, Option, none, some, List, [], ◌∷◌, arith, any,
  if◌then◌else◌, Bool-cases, subst, inl, inr, ltb, ◌⊎◌, ◌∙◌, Memᴰ,
}
use openddil_demo.CmReport.{
  ManualDiscrepancy, is_bit_only, newer, bit_only_from, bit_only_discrepancy,
}

-- an answer that no awaiting entry of the list is newer than; any entry is newer than none
abbrev pub IsNewest : Option ManualDiscrepancy → List ManualDiscrepancy → Type 0
IsNewest best ds = any (λ d. is_bit_only d && newer best d) ds ≡ false

abbrev pub Awaits : Option ManualDiscrepancy → Type 0
Awaits none = Unit {0}
Awaits (some d) = is_bit_only d ≡ true

-- a best that is replaced is the older one
abbrev outdone : Option ManualDiscrepancy → Option ManualDiscrepancy → Bool
outdone none b = true
outdone (some a) none = false
outdone (some a) (some b) = not (ltb b.detected_at_ns a.detected_at_ns)

step_outdone :
    (best : Option ManualDiscrepancy) (d : ManualDiscrepancy) (last : Option ManualDiscrepancy)
    → outdone (if is_bit_only d && newer best d then some d else best) last ≡ true
    → (outdone best last ≡ true) × ((is_bit_only d && newer last d) ≡ false)
step_outdone none d none h = (refl, ground arith)
step_outdone none d (some l) h = (refl, ground arith)
step_outdone (some b) d none h = absurd (ground arith)
step_outdone (some b) d (some l) h = (ground arith, ground arith)

bit_only_from-IsNewest :
    (best : Option ManualDiscrepancy) (ds : List ManualDiscrepancy)
    → (outdone best (bit_only_from best ds) ≡ true) × IsNewest (bit_only_from best ds) ds
unfolding bit_only_from
bit_only_from-IsNewest none [] = (refl, refl)
bit_only_from-IsNewest (some b) [] = (ground arith, refl)
bit_only_from-IsNewest best (d ∷ ds) =
    let next = if is_bit_only d && newer best d then some d else best in
    let (o, n) = bit_only_from-IsNewest next ds in
    let (o2, n2) = step_outdone best d (bit_only_from next ds) o in (o2, ground arith)

bit_only_from-Awaits :
    (best : Option ManualDiscrepancy) (ds : List ManualDiscrepancy)
    → Awaits best
    → Awaits (bit_only_from best ds)
unfolding bit_only_from
bit_only_from-Awaits best [] h = h
bit_only_from-Awaits best (d ∷ ds) h = elim (Bool-cases (is_bit_only d && newer best d)) [
  | inl e ↦
      subst (λ b. Awaits (bit_only_from b ds)) (rw e refl)
        (bit_only_from-Awaits (some d) ds (ground arith))
  | inr e ↦ subst (λ b. Awaits (bit_only_from b ds)) (rw e refl) (bit_only_from-Awaits best ds h)
]

-- an answer is the best so far or an entry of the list
abbrev IsFrom :
    Option ManualDiscrepancy → List ManualDiscrepancy → Option ManualDiscrepancy → Type 0
IsFrom best ds o = (o ≡ best) ⊎ ((d : ManualDiscrepancy) × (o ≡ some d) × Memᴰ d ds)

bit_only_from-IsFrom :
    (best : Option ManualDiscrepancy) (ds : List ManualDiscrepancy)
    → IsFrom best ds (bit_only_from best ds)
unfolding bit_only_from
bit_only_from-IsFrom best [] = inl refl
bit_only_from-IsFrom best (d ∷ ds) =
    let next = if is_bit_only d && newer best d then some d else best in
    elim (bit_only_from-IsFrom next ds) [
      | inr (x, e, m) ↦ inr (x, e, Memᴰ.tail m)
      | inl e ↦ elim (Bool-cases (is_bit_only d && newer best d)) [
        | inl k ↦ inr (d, e ∙ rw k refl, Memᴰ.head refl)
        | inr k ↦ inl (e ∙ rw k refl)
      ]
    ]

-- nothing, or an entry of the list
abbrev pub IsOffered : Option ManualDiscrepancy → List ManualDiscrepancy → Type 0
IsOffered o ds = (o ≡ none) ⊎ ((d : ManualDiscrepancy) × (o ≡ some d) × Memᴰ d ds)

-- The card offers nothing for a list that is not there. Of a list it offers nothing or one of its
-- entries: a fault that a built-in test reported and no operator did, and no such entry of the list
-- was detected later; it offers nothing only if the list has no such fault.
pub bit_only_discrepancy_lem :
    (ds : List ManualDiscrepancy)
    → (bit_only_discrepancy none ≡ none)
      × IsOffered (bit_only_discrepancy (some ds)) ds
      × Awaits (bit_only_discrepancy (some ds))
      × IsNewest (bit_only_discrepancy (some ds)) ds
unfolding bit_only_discrepancy
bit_only_discrepancy_lem ds =
    let (_, n) = bit_only_from-IsNewest none ds in
    (refl, bit_only_from-IsFrom none ds, bit_only_from-Awaits none ds tt, n)

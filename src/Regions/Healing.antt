-- ===== src/Regions/Healing.antt =====
-- A selection of a region that is replaced is replaced once.
use openddil_demo.Base.{
  String, ◌≡◌, sym, ◌∙◌, inl, inr, true, false, Option, none, some, List, [], ◌∷◌, arith, ◌==◌,
  eq_iff, Bool-cases,
}
use openddil_demo.Base.Sort.{holds_text, sort_by, text_le, any-sort_by}
use openddil_demo.Regions.{is_known, first_of, heal_region}

first_of-holds : (l : List String) (r : String) → first_of l ≡ some r → holds_text r l ≡ true
first_of-holds [] r h = absurd (ground arith)
first_of-holds (x ∷ xs) r h = let same : x ≡ r = ground arith in ground (arith, (eq_iff x r).1 same)

-- A replacement is one of the regions that were observed; and if it has a name, it stays: no other
-- replacement follows it.
pub heal_region_settles :
    (selected : Option String) (fob_regions observed : List String) (r : String)
    → heal_region selected fob_regions observed ≡ some r
    → (r == "") ≡ false
    → (holds_text r observed ≡ true) × (heal_region (some r) fob_regions observed ≡ none)
unfolding heal_region
heal_region_settles selected fob_regions [] r h named = absurd (ground arith)
heal_region_settles selected fob_regions (o ∷ os) r h named =
    elim (Bool-cases (is_known selected fob_regions (o ∷ os))) [
      | inl e ↦ absurd (ground arith)
      | inr e ↦
          let first : first_of (sort_by text_le (o ∷ os)) ≡ some r = ground arith in
          let there : holds_text r (o ∷ os) ≡ true =
            sym (any-sort_by text_le (λ j. j == r) (o ∷ os))
            ∙ first_of-holds (sort_by text_le (o ∷ os)) r first in
          (there, ground arith)
    ]

-- ===== src/Aggregates/Sums.antt =====
-- Every row of the fleet is counted once.
use openddil_demo.Base.{
  ℕ, ◌+◌, String, ◌≡◌, refl, ◌∙◌, inl, inr, Bool, true, false, not, Option, none, some, List, [],
  ◌∷◌, map, arith, ◌==◌, if◌then◌else◌, or_else, length, filter, sum_by, Bool-cases,
}
use openddil_demo.Base.Dict
use openddil_demo.Base.Dict.{Dict}
use openddil_demo.Base.Groups.{sum_by-map}
use openddil_demo.Base.Sort.{sum_by-sort_by}
use openddil_demo.Aggregates.{
  RosterAsset, CmState, Compliance, counted, no_counts, family_of, is_overdue, by_family,
  variant_by_asset, compliance_row, rate_le, MwoComplianceRow, mwo_compliance_by_family,
  BaselineBucket, by_baseline, bucket_of, is_larger, baseline_distribution,
}

module _ {V : Type 0} (f : V → ℕ) where
  abbrev weight : String × V → ℕ
  weight (k, v) = f v

  abbrev weight_of : Option V → ℕ
  weight_of none = 0
  weight_of (some v) = f v

  sum_by-put :
      (k : String) (v : V) (d : Dict V)
      → sum_by weight (Dict.put k v d) + weight_of (Dict.get k d) ≡ sum_by weight d + f v
  unfolding Dict.put Dict.get
  sum_by-put k v [] = omega arith
  sum_by-put k v ((j, w) ∷ d) = elim (Bool-cases (j == k)) [
    | inl e ↦ rw e (omega arith)
    | inr e ↦ rw e (omega (arith, sum_by-put k v d))
  ]

abbrev total_of : Compliance → ℕ
total_of e = e.total

abbrev compliant_of : Compliance → ℕ
compliant_of e = e.compliant

total-or_else : (o : Option Compliance) → total_of (or_else o no_counts) ≡ weight_of total_of o
total-or_else none = refl
total-or_else (some e) = refl

compliant-or_else :
    (o : Option Compliance) → compliant_of (or_else o no_counts) ≡ weight_of compliant_of o
compliant-or_else none = refl
compliant-or_else (some e) = refl

by_family-total :
    (variants : Dict (Option String)) (cm : List CmState) (d : Dict Compliance)
    → sum_by (weight total_of) (by_family variants d cm) ≡ sum_by (weight total_of) d + length cm
unfolding by_family
by_family-total variants [] d = omega arith
by_family-total variants (row ∷ cm) d =
    let family = family_of variants row in
    let old = Dict.get family d in
    let new = counted (is_overdue row) (or_else old no_counts) in
    omega (
      arith,
      by_family-total variants cm (Dict.put family new d),
      sum_by-put total_of family new d,
      total-or_else old,
    )

one_unless : Bool → ℕ
one_unless true = 0
one_unless false = 1

counted-compliant :
    (b : Bool) (e : Compliance) → compliant_of (counted b e) ≡ compliant_of e + one_unless b
unfolding one_unless
counted-compliant true e = omega arith
counted-compliant false e = refl

length-either :
    (b : Bool) (row : CmState) (rest : List CmState)
    → length (if not b then row ∷ rest else rest) ≡ length rest + one_unless b
unfolding one_unless
length-either true row rest = omega arith
length-either false row rest = omega arith

from_zero : (n : ℕ) → 0 + n ≡ n
from_zero n = omega arith

by_family-compliant :
    (variants : Dict (Option String)) (cm : List CmState) (d : Dict Compliance)
    → sum_by (weight compliant_of) (by_family variants d cm)
      ≡ sum_by (weight compliant_of) d + length (filter (λ row. not (is_overdue row)) cm)
unfolding by_family
by_family-compliant variants [] d = omega arith
by_family-compliant variants (row ∷ cm) d =
    let family = family_of variants row in
    let old = Dict.get family d in
    let new = counted (is_overdue row) (or_else old no_counts) in
    let rest = by_family-compliant variants cm (Dict.put family new d) in
    let put = sum_by-put compliant_of family new d in
    let before = compliant-or_else old in
    omega (
      arith,
      rest,
      put,
      before,
      counted-compliant (is_overdue row) (or_else old no_counts),
      length-either (is_overdue row) row (filter (λ r. not (is_overdue r)) cm),
    )

count-or_else : (o : Option ℕ) → or_else o 0 ≡ weight_of (λ n. n) o
count-or_else none = refl
count-or_else (some n) = refl

by_baseline-sum :
    (cm : List CmState) (d : Dict ℕ)
    → sum_by (weight (λ n. n)) (by_baseline d cm) ≡ sum_by (weight (λ n. n)) d + length cm
unfolding by_baseline
by_baseline-sum [] d = omega arith
by_baseline-sum (row ∷ cm) d =
    let id = or_else row.baseline_id "(none)" in
    let new = or_else (Dict.get id d) 0 + 1 in
    omega (
      arith,
      by_baseline-sum cm (Dict.put id new d),
      sum_by-put (λ n. n) id new d,
      count-or_else (Dict.get id d),
    )

-- Over all families, the assets that are counted are the rows of the list, each once, and those that are
-- counted as compliant are the rows without an overdue modification.
pub mwo_compliance_by_family_sums :
    (cm : List CmState) (fleet : List RosterAsset)
    → (sum_by (λ (r : MwoComplianceRow). r.counts.total) (mwo_compliance_by_family cm fleet)
        ≡ length cm)
      × (sum_by (λ (r : MwoComplianceRow). r.counts.compliant) (mwo_compliance_by_family cm fleet)
          ≡ length (filter (λ row. not (is_overdue row)) cm))
unfolding mwo_compliance_by_family
mwo_compliance_by_family_sums cm fleet =
    let variants = variant_by_asset [] fleet in
    let families = by_family variants [] cm in
    (
      sum_by-sort_by rate_le (λ r. r.counts.total) (map compliance_row families)
          ∙ (sum_by-map compliance_row (λ r. r.counts.total) (weight total_of) (λ p. refl) families
              ∙ (by_family-total variants cm [] ∙ from_zero (length cm))),
      sum_by-sort_by rate_le (λ r. r.counts.compliant) (map compliance_row families)
          ∙ (sum_by-map compliance_row (λ r. r.counts.compliant) (weight compliant_of) (λ p. refl)
                families
              ∙ (by_family-compliant variants cm []
                  ∙ from_zero (length (filter (λ row. not (is_overdue row)) cm)))),
    )

-- The counts of all baselines add up to the number of rows.
pub baseline_distribution_sum :
    (cm : List CmState)
    → sum_by (λ (b : BaselineBucket). b.count) (baseline_distribution cm) ≡ length cm
unfolding baseline_distribution
baseline_distribution_sum cm =
    sum_by-sort_by is_larger (λ b. b.count) (map bucket_of (by_baseline [] cm))
    ∙ (sum_by-map bucket_of (λ b. b.count) (weight (λ n. n)) (λ p. refl) (by_baseline [] cm)
        ∙ (by_baseline-sum cm [] ∙ from_zero (length cm)))

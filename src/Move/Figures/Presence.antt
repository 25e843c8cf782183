-- ===== src/Move/Figures/Presence.antt =====
-- When the other figures are known, and what they then say.
use openddil_demo.Base.{
  ℕ, ◌*◌, ◌≤◌, String, ◌≡◌, refl, true, Option, none, some, arith, leb→le, Bool-cases, inl, inr,
  ◌==◌, truthy, ◌⧺◌, ◌↔◌,
}
use openddil_demo.Base.Int.{ℤ, sub_ℕ}
use openddil_demo.Move.{Maybe, known, absent, ms, at_most}
use openddil_demo.Move.Figures.{
  UnitQuantity, FuelStandard, fuel_for_move, fuel_result, tank_of, burn_of, LogisticsRow,
  readiness_after_emplacement,
}

-- the value of a figure that is known
abbrev pub value_of {ℓ} : {A : Type ℓ} → Maybe A → Option A
value_of (known k) = some k.value
value_of (absent why) = none

fuel_result-value :
    (tank burn : Option UnitQuantity) (km : Option ℕ) (left : ℤ)
    → (value_of (fuel_result tank burn km) ≡ some left) ↔ (
        (t : UnitQuantity) × (b : UnitQuantity) × (k : ℕ) × (tank ≡ some t)
        × (burn ≡ some b)
        × (km ≡ some k)
        × ((b.unit == t.unit ⧺ "/km") ≡ true)
        × (left ≡ sub_ℕ t.value (b.value * k)))
fuel_result-value none burn km left =
    (λ h. absurd (ground arith), λ (t, b, k, et, eb, ek, eu, r). absurd (ground arith))
fuel_result-value (some t) none km left =
    (λ h. absurd (ground arith), λ (t, b, k, et, eb, ek, eu, r). absurd (ground arith))
fuel_result-value (some t) (some b) none left =
    (λ h. absurd (ground arith), λ (t, b, k, et, eb, ek, eu, r). absurd (ground arith))
fuel_result-value (some t) (some b) (some k) left = elim (Bool-cases (b.unit == t.unit ⧺ "/km")) [
  | inl e ↦ (
    λ h. (t, b, k, refl, refl, refl, e, ground arith),
    λ (t2, b2, k2, et, eb, ek, eu, r). ground arith,
  )
  | inr e ↦ (λ h. absurd (ground arith), λ (t2, b2, k2, et, eb, ek, eu, r). absurd (ground arith))
]

-- The fuel at arrival is a given figure exactly when the tank, the burn and the distance are all
-- declared, the burn is in the tank's unit per kilometre, and the figure is the tank less the burn
-- over the distance.
pub fuel_for_move-value :
    (standard : Option FuelStandard) (planned_move_km : Option ℕ) (left : ℤ)
    → (value_of (fuel_for_move standard planned_move_km).result ≡ some left) ↔ (
        (t : UnitQuantity) × (b : UnitQuantity) × (k : ℕ) × (tank_of standard ≡ some t)
        × (burn_of standard ≡ some b)
        × (planned_move_km ≡ some k)
        × ((b.unit == t.unit ⧺ "/km") ≡ true)
        × (left ≡ sub_ℕ t.value (b.value * k)))
unfolding fuel_for_move
fuel_for_move-value standard planned_move_km left =
    fuel_result-value (tank_of standard) (burn_of standard) planned_move_km left

ms-truthy :
    (date_parse : String → Option ℕ) (o : Option String) (n : ℕ)
    → ms date_parse o ≡ some n
    → truthy o ≡ true
unfolding ms
ms-truthy date_parse none n h = absurd (ground arith)
ms-truthy date_parse (some s) n h = elim (Bool-cases (s == "")) [
  | inl e ↦ absurd (ground arith)
  | inr e ↦ ground arith
]

at_most_cases :
    (a b : Option ℕ)
    → at_most a b ≡ true
    → (n : ℕ) × (k : ℕ) × (a ≡ some n) × (b ≡ some k) × (n ≤ k)
at_most_cases none b h = absurd (ground arith)
at_most_cases (some n) none h = absurd (ground arith)
at_most_cases (some n) (some k) h = (n, k, refl, refl, leb→le n k h)

-- After a move the readiness of a record is shown exactly if the record's time and the time of the
-- emplacement can both be read and the record is not the older one; it is then the record's severity.
pub readiness_after_emplacement-value :
    (date_parse : String → Option ℕ) (l : LogisticsRow) (emplaced_at : Option String)
    (severity : String)
    → (value_of (readiness_after_emplacement date_parse (some l) emplaced_at) ≡ some severity) ↔ (
        (n : ℕ) × (k : ℕ) × (ms date_parse emplaced_at ≡ some n)
        × (ms date_parse l.computed_at ≡ some k)
        × (n ≤ k)
        × (severity ≡ l.overall_severity))
unfolding readiness_after_emplacement
readiness_after_emplacement-value date_parse l emplaced_at severity = (
  λ h. elim (Bool-cases (at_most (ms date_parse emplaced_at) (ms date_parse l.computed_at))) [
    | inl e ↦ let (n, k, en, ek, le) = at_most_cases _ _ e in (n, k, en, ek, le, ground arith)
    | inr e ↦ absurd (ground arith)
  ],
  λ (n, k, en, ek, le, es).
      ground
        (arith, ms-truthy date_parse emplaced_at n en, ms-truthy date_parse l.computed_at k ek),
)

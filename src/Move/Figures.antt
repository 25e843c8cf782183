-- ===== src/Move/Figures.antt =====
-- The other figures of frontend/src/lib/movePanel.ts: the verdict against a standard, fuel, readiness
-- after emplacement, the status intent and the resupplies since a time.
pub mod Presence
use openddil_demo.Base.{
  ℕ, ◌*◌, String, ◌≡◌, refl, Bool, true, false, not, Option, none, some, List, [], ◌∷◌, ◌++◌, arith,
  ◌==◌, filter, leb, if◌then◌else◌, truthy, or_else, ◌⧺◌, ◌↔◌, ◌||◌,
}
use openddil_demo.Base.Int.{ℤ, sub_ℕ, ◌-ℤ◌, is_nonpos}
use openddil_demo.Base.Sort.{sort_by}
use openddil_demo.Move.{Known, Maybe, known, absent, ms, at_most, is_absent}

pub data Verdict : Type 0 where
  within over : Verdict

pub record StandardVerdict : Type 0 where
  pub delta : ℤ
  pub verdict : Verdict

unfoldable pub vs_standard : ℤ → Option ℤ → String → Maybe StandardVerdict
vs_standard measured none variant = absent ("no standard declared for " ⧺ variant)
vs_standard measured (some standard) variant = known (record {
  value = record {
    delta = measured -ℤ standard;
    verdict = if is_nonpos (measured -ℤ standard) then within else over;
  };
  source = "declared movement standard";
  at = none;
})

-- `UnitQuantity` of frontend/src/deployment.ts
pub record UnitQuantity : Type 0 where
  pub value : ℕ
  pub unit : String

pub record FuelStandard : Type 0 where
  pub fuel_tank : Option UnitQuantity
  pub fuel_burn_per_km : Option UnitQuantity

pub record FuelResult : Type 0 where
  pub result : Maybe ℤ
  pub assumption : String

abbrev pub fuel_assumption : String
fuel_assumption = "assumes a full tank at march order; no fuel level is reported"

abbrev pub named {ℓ} : {A : Type ℓ} → Option A → String → List String
named none name = name ∷ []
named (some a) name = []

-- `join(', ')`
abbrev pub join : List String → String
join [] = ""
join (s ∷ []) = s
join (s ∷ t ∷ r) = s ⧺ ", " ⧺ join (t ∷ r)

abbrev pub fuel_missing : Option UnitQuantity → Option UnitQuantity → Option ℕ → List String
fuel_missing tank burn km =
    named tank "fuelTank" ++ (named burn "fuelBurnPerKm" ++ named km "plannedMoveKm")

abbrev pub fuel_result : Option UnitQuantity → Option UnitQuantity → Option ℕ → Maybe ℤ
fuel_result (some tank) (some burn) (some km) =
    if not (burn.unit == tank.unit ⧺ "/km")
    then absent "fuel units differ"
    else known (record {
      value = sub_ℕ tank.value (burn.value * km);
      source = "declared tank minus declared burn x planned move (" ⧺ tank.unit ⧺ ")";
      at = none;
    })
fuel_result tank burn km = absent ("missing input: " ⧺ join (fuel_missing tank burn km))

abbrev pub tank_of : Option FuelStandard → Option UnitQuantity
tank_of none = none
tank_of (some s) = s.fuel_tank

abbrev pub burn_of : Option FuelStandard → Option UnitQuantity
burn_of none = none
burn_of (some s) = s.fuel_burn_per_km

unfoldable pub fuel_for_move : Option FuelStandard → Option ℕ → FuelResult
fuel_for_move standard planned_move_km = record {
  result = fuel_result (tank_of standard) (burn_of standard) planned_move_km;
  assumption = fuel_assumption;
}

-- the columns that the readiness reads; `none` for no row
pub record LogisticsRow : Type 0 where
  pub overall_severity : String
  pub computed_at : Option String

abbrev pub not_recomputed : Maybe String
not_recomputed = absent "not recomputed since emplacement"

unfoldable pub readiness_after_emplacement :
    (String → Option ℕ) → Option LogisticsRow → Option String → Maybe String
readiness_after_emplacement date_parse logistics emplaced_at =
    if not (truthy emplaced_at) then absent "not yet emplaced" else elim logistics [
      | none ↦ not_recomputed
      | some l ↦
          if not (truthy l.computed_at)
          then not_recomputed
          else if not (at_most (ms date_parse emplaced_at) (ms date_parse l.computed_at))
          then not_recomputed
          else known (record {
            value = l.overall_severity;
            source = "asset_logistics_status computed after emplacement";
            at = l.computed_at;
          })
    ]

abbrev pub not_operational : String
not_operational =
    "JC3IEDM operational status intent: temporarily not operational (weapon function); egress mapping only"

abbrev pub operational : String
operational =
    "JC3IEDM operational status intent: operational (weapon function); egress mapping only, readiness decides"

unfoldable pub operational_status_concept : String → Maybe String
operational_status_concept phase =
    if phase == "march_ordered" || phase == "moving" || phase == "emplacing"
    then known (record { value = not_operational; source = "posture phase " ⧺ phase; at = none })
    else if phase == "emplaced"
    then known (record { value = operational; source = "posture phase emplaced"; at = none })
    else absent "no operational status intent for this posture"

-- newest first; `received_at` reads a row's own time
module _ {ℓ} {A : Type ℓ} (date_parse : String → Option ℕ) (received_at : A → String) where
  unfoldable pub resupply_since : List A → ℕ → List A
  resupply_since rows since_ms =
      sort_by
        (λ a b.
          at_most (ms date_parse (some (received_at b))) (ms date_parse (some (received_at a))))
        (filter (λ r. at_most (some since_ms) (ms date_parse (some (received_at r)))) rows)

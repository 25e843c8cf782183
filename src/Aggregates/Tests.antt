-- ===== src/Aggregates/Tests.antt =====
-- Two tanks, one of which has an overdue modification, and an asset that the roster does not have.
use openddil_demo.Base.{
  String, ◌≡◌, refl, not, Option, none, some, List, [], ◌∷◌, length, filter, sum_by,
}
use openddil_demo.Base.Dict
use openddil_demo.Base.Sort.{sort_by}
use openddil_demo.Json.{Value, text, object, done, entry, lookup}
use openddil_demo.Aggregates.{
  RosterAsset, CmState, MwoComplianceRow, is_overdue, is_overdue_mod, platform_family,
  mwo_compliance_by_family,
}
use openddil_demo.Aggregates.Sums.{mwo_compliance_by_family_sums}

abbrev tank : String → RosterAsset
tank id = record {
  asset_id = id;
  callsign = none;
  platform_variant = some "M1A2-SEPv3";
  posture_status = "moving";
  posture_since = none;
}

abbrev fleet : List RosterAsset
fleet = tank "a" ∷ tank "b" ∷ []

abbrev late : Value
late = object (entry "state" (text "MOD_STATE_OVERDUE") done)

abbrev cm_row : String → Option (List Value) → CmState
cm_row id mods = record { asset_id = id; baseline_id = none; mod_status = mods }

abbrev rows : List CmState
rows = cm_row "a" none ∷ cm_row "b" (some (late ∷ [])) ∷ cm_row "c" none ∷ []

worst_first :
    mwo_compliance_by_family rows fleet
    ≡ record { family = "M1A2"; counts = record { total = 2; compliant = 1 } }
      ∷ record { family = "UNKNOWN"; counts = record { total = 1; compliant = 1 } }
      ∷ []
unfolding mwo_compliance_by_family sort_by Dict.get Dict.put is_overdue_mod platform_family lookup
worst_first = refl

mwo_compliance_by_family_sums_example :
    (sum_by (λ (r : MwoComplianceRow). r.counts.total) (mwo_compliance_by_family rows fleet)
      ≡ length rows)
    × (sum_by (λ (r : MwoComplianceRow). r.counts.compliant) (mwo_compliance_by_family rows fleet)
        ≡ length (filter (λ row. not (is_overdue row)) rows))
mwo_compliance_by_family_sums_example = mwo_compliance_by_family_sums rows fleet

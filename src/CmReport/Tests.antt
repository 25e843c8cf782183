-- ===== src/CmReport/Tests.antt =====
-- Reports on a concrete asset.
use openddil_demo.Base.{String, ◌≡◌, none, some, List, [], ◌∷◌, Option}
use openddil_demo.Json.{Value, Elements, text, object, entry, done, element, stop}
use openddil_demo.CmReport.{ReportInput, ManualDiscrepancy, bit_only_discrepancy}
use openddil_demo.CmReport.Card.{Awaits, IsOffered, IsNewest, bit_only_discrepancy_lem}

abbrev leak : ReportInput
leak = record {
  asset_id = "truck";
  component = "pump";
  fault_code = "F-1";
  description = " leaks oil ";
}

abbrev receipt : Option Value
receipt = some (object (entry "event_id" (text "e-1") done))

abbrev part : String → Value
part slot = object (entry "slot_id" (text slot) done)

abbrev installed : Elements
installed =
    element (part "pump") (element (part "axle") (element (part "pump") (element (part "") stop)))

abbrev fault : ManualDiscrepancy
fault = record {
  component = "pump";
  fault_code = "F-1";
  detected_at_ns = 3720000000000;
  sources = "telemetry_bit" ∷ [];
}

abbrev faults : List ManualDiscrepancy
faults =
    fault
    ∷ record fault {
      detected_at_ns = 3780000000000;
      sources = "telemetry_bit" ∷ "operator_report" ∷ [];
    }
    ∷ []

bit_only_discrepancy_lem_example :
    (bit_only_discrepancy none ≡ none)
    × IsOffered (bit_only_discrepancy (some faults)) faults
    × Awaits (bit_only_discrepancy (some faults))
    × IsNewest (bit_only_discrepancy (some faults)) faults
bit_only_discrepancy_lem_example = bit_only_discrepancy_lem faults

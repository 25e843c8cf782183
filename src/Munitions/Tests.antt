-- ===== src/Munitions/Tests.antt =====
-- The ledger of two launchers, one of them undeclared.
use openddil_demo.Base.{
  ℕ, String, ◌≡◌, refl, Option, none, some, List, [], ◌∷◌, ◌==◌, if◌then◌else◌, sum_by,
}
use openddil_demo.Base.Int.{pos}
use openddil_demo.Move.{known, absent}
use openddil_demo.Munitions.{LauncherLedgerRow}
use openddil_demo.Munitions.Launchers.{LedgerLaunchInput, LedgerInputs, launchers_of}
use openddil_demo.Munitions.Build.{build_munitions_ledger, all_rows, in_scope}
use openddil_demo.Munitions.Totals.{
  fired, row_figure, type_figure, region_figure, build_munitions_ledger_totals,
}

abbrev clock : String → Option ℕ
clock s = if s == "t1" then some 1000 else none

abbrev to_iso : ℕ → String
to_iso n = "t9"

abbrev launch : String → ℕ → LedgerLaunchInput
launch id n = record {
  launcher_asset_id = id;
  munition_type = "rocket";
  quantity = n;
  launched_at = "t1";
  terminal_state = some "unresolved";
  region_id = none;
}

abbrev inputs : LedgerInputs
inputs = record {
  fleet =
      record { asset_id = "himars-01"; variant = some "HIMARS"; region_id = some "region-01" } ∷ [];
  launches = launch "himars-01" 4 ∷ launch "stray" 2 ∷ [];
  resupplies = [];
  tracks = [];
  declared_load = some (record { asset = []; variant = ("HIMARS", ("rocket", 6) ∷ []) ∷ [] });
  region_id = none;
  as_of_ms = 9000;
}

build_munitions_ledger_totals_example :
    (sum_by (region_figure fired) (build_munitions_ledger clock to_iso inputs).by_region
      ≡ sum_by (type_figure fired) (build_munitions_ledger clock to_iso inputs).by_type)
    × (sum_by (type_figure fired) (build_munitions_ledger clock to_iso inputs).by_type
        ≡ sum_by
            (row_figure fired)
            (all_rows clock to_iso inputs (in_scope none (launchers_of clock inputs))))
build_munitions_ledger_totals_example = build_munitions_ledger_totals fired clock to_iso inputs refl

abbrev declared_row : LauncherLedgerRow
declared_row = record {
  launcher_asset_id = "himars-01";
  variant = none;
  region_id = none;
  munition_key = "rocket";
  loaded = known (record { value = 6; source = "declared asset load"; at = none });
  expended = record { value = 4; source = "replay"; at = none };
  remaining = known (record { value = pos 2; source = "declared asset load"; at = none });
  in_flight = record { value = 0; source = "track"; at = none };
  unresolved = record { value = 0; source = "launch"; at = none };
  received = record { value = 0; source = "replay"; at = none };
  fired = record { value = 4; source = "replay"; at = none };
}

abbrev two_rows : List LauncherLedgerRow
two_rows =
    declared_row
    ∷ record declared_row {
      launcher_asset_id = "stray";
      loaded = absent "no declared load for stray";
      remaining = absent "no declared load for stray";
    }
    ∷ []

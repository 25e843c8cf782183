-- ===== src/Munitions/Build.antt =====
-- `buildMunitionsLedger` of frontend/src/lib/munitionsLedger.ts: the rows of the launchers, and the
-- ledger of a region or of the theater.
use openddil_demo.Base.{
  ℕ, String, Bool, true, false, ◌&&◌, not, Option, none, some, List, [], ◌∷◌, ◌++◌, map, ◌==◌,
  if◌then◌else◌, sum_by, length, filter, ◌⧺◌, or_else, truthy,
}
use openddil_demo.Base.Dict
use openddil_demo.Base.Dict.{Dict}
use openddil_demo.Base.Sort.{sort_by, text_le}
use openddil_demo.Move.{Maybe, known, absent, at_most}
use openddil_demo.Move.Ledger.{
  LedgerDeclared, LedgerFire, LedgerResupply, LedgerRow, replay_ledger, load_in, declared_load,
}
use openddil_demo.Base.Groups.{sorted_groups}
use openddil_demo.Munitions.{LauncherLedgerRow, MunitionTypeLedgerRow, rollup}
use openddil_demo.Munitions.Launchers.{
  LedgerLaunchInput, LedgerTrackInput, LedgerResupplyInput, DeclaredLoadConfig, Launcher,
  LedgerInputs, asset_load, variant_load, launchers_of,
}

abbrev pub label_for : String → Option String → String
label_for id variant = if truthy variant then id ⧺ " (" ⧺ or_else variant "" ⧺ ")" else id

abbrev pub declared_for : Option DeclaredLoadConfig → String → Option String → LedgerDeclared
declared_for load id variant = record {
  label = label_for id variant;
  asset = asset_load load id;
  variant = if truthy variant then variant_load load variant else none;
}

abbrev pub fire_of : LedgerLaunchInput → LedgerFire
fire_of l = record {
  launched_at = l.launched_at;
  munition_type = l.munition_type;
  quantity = l.quantity;
}

abbrev pub resupply_of : LedgerResupplyInput → LedgerResupply
resupply_of r = record {
  received_at = r.received_at;
  munition_type = r.munition_type;
  quantity = r.quantity;
}

abbrev pub is_unresolved : LedgerLaunchInput → Bool
is_unresolved l = or_else l.terminal_state "" == "unresolved"

abbrev pub is_flying : String → String → LedgerTrackInput → Bool
is_flying id key t =
    not (Dict.is_some t.terminal_state)
    && (elim t.launcher_asset_id [ none ↦ false | some launcher ↦ launcher == id ])
    && t.munition_type == key

abbrev pub loaded_for : LedgerDeclared → String → String → Maybe ℕ
loaded_for declared key as_of = elim (declared_load declared key) [
  | none ↦ absent ("no declared load for " ⧺ declared.label)
  | some d ↦ known (record {
    value = d;
    source =
        if Dict.is_some (load_in declared.asset key)
        then "declared asset load"
        else "declared variant load";
    at = some as_of;
  })
]

unfoldable pub launcher_row :
    (String → Option ℕ) → LedgerInputs → String → String → Launcher → LedgerRow → LauncherLedgerRow
launcher_row date_parse args as_of id launcher row =
    let key = row.munition_key in
    let mine = filter (λ (l : LedgerLaunchInput). l.launcher_asset_id == id) args.launches in
    record {
      launcher_asset_id = id;
      variant = launcher.variant;
      region_id = launcher.region_id;
      munition_key = key;
      loaded = loaded_for (declared_for args.declared_load id launcher.variant) key as_of;
      expended = row.expended;
      remaining = row.remaining;
      in_flight = record {
        value = length (filter (is_flying id key) args.tracks);
        source = "munition_track terminal_state IS NULL";
        at = some as_of;
      };
      unresolved = record {
        value =
            sum_by (λ (l : LedgerLaunchInput). l.quantity)
              (filter
                (λ (l : LedgerLaunchInput).
                  l.munition_type == key
                  && at_most (date_parse l.launched_at) (some args.as_of_ms)
                  && is_unresolved l)
                mine);
        source = "effector_launch terminal_state";
        at = some as_of;
      };
      received = row.received;
      fired = row.fired;
    }

unfoldable pub launcher_rows :
    (String → Option ℕ) → (ℕ → String) → LedgerInputs → String → Launcher → List LauncherLedgerRow
unfolding launcher_row
launcher_rows date_parse to_iso args id launcher =
    map (launcher_row date_parse args (to_iso args.as_of_ms) id launcher) (
      replay_ledger date_parse to_iso (declared_for args.declared_load id launcher.variant)
        (map fire_of (filter (λ (l : LedgerLaunchInput). l.launcher_asset_id == id) args.launches))
        (map resupply_of
          (filter (λ (r : LedgerResupplyInput). r.launcher_asset_id == id) args.resupplies))
        args.as_of_ms)

abbrev pub same_region : Option String → Option String → Bool
same_region none r = true
same_region (some scope) none = false
same_region (some scope) (some r) = r == scope

unfoldable pub in_scope : Option String → Dict Launcher → Dict Launcher
in_scope region_id launchers =
    sort_by (λ (a b : String × Launcher). text_le a.0 b.0)
      (filter (λ (e : String × Launcher). same_region region_id e.1.region_id) launchers)

unfoldable pub all_rows :
    (String → Option ℕ) → (ℕ → String) → LedgerInputs → Dict Launcher → List LauncherLedgerRow
unfolding launcher_rows
all_rows date_parse to_iso args [] = []
all_rows date_parse to_iso args ((id, launcher) ∷ ls) =
    launcher_rows date_parse to_iso args id launcher ++ all_rows date_parse to_iso args ls

pub record RegionLedger : Type 0 where
  pub region_id : String
  pub by_type : List MunitionTypeLedgerRow

pub record MunitionsLedger : Type 0 where
  pub scope : String
  pub as_of : String
  pub by_type : List MunitionTypeLedgerRow
  pub by_region : List RegionLedger
  pub launcher_count : ℕ

abbrev pub region_key : LauncherLedgerRow → String
region_key r = or_else r.region_id "unknown"

abbrev pub region_ledger : String → String × List LauncherLedgerRow → RegionLedger
region_ledger as_of (k, rows) = record { region_id = k; by_type = rollup rows as_of }

-- the ledger of rows that are already in scope
unfoldable pub ledger_of : Option String → String → List LauncherLedgerRow → ℕ → MunitionsLedger
unfolding sorted_groups rollup
ledger_of region_id as_of rows count = record {
  scope = or_else region_id "theater";
  as_of = as_of;
  by_type = rollup rows as_of;
  by_region = elim region_id [
    | none ↦ map (region_ledger as_of) (sorted_groups region_key rows)
    | some r ↦ []
  ];
  launcher_count = count;
}

unfoldable pub build_munitions_ledger :
    (String → Option ℕ) → (ℕ → String) → LedgerInputs → MunitionsLedger
unfolding launchers_of in_scope all_rows ledger_of
build_munitions_ledger date_parse to_iso args =
    let scoped = in_scope args.region_id (launchers_of date_parse args) in
    ledger_of args.region_id (to_iso args.as_of_ms) (all_rows date_parse to_iso args scoped)
      (length scoped)

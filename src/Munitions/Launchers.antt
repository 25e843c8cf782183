-- ===== src/Munitions/Launchers.antt =====
-- The launchers of the ledger: the inputs of `buildMunitionsLedger` of
-- frontend/src/lib/munitionsLedger.ts, and the first half of that function.
use openddil_demo.Base.{ℕ, String, ◌||◌, Option, none, some, List, [], ◌∷◌, if◌then◌else◌}
use openddil_demo.Base.Dict
use openddil_demo.Base.Dict.{Dict}
use openddil_demo.Move.{at_most}

pub record LedgerLauncherInput : Type 0 where
  pub asset_id : String
  pub variant : Option String
  pub region_id : Option String

pub record LedgerLaunchInput : Type 0 where
  pub launcher_asset_id : String
  pub munition_type : String
  pub quantity : ℕ
  pub launched_at : String
  pub terminal_state : Option String
  pub region_id : Option String

pub record LedgerTrackInput : Type 0 where
  pub launcher_asset_id : Option String
  pub munition_type : String
  pub terminal_state : Option String

pub record LedgerResupplyInput : Type 0 where
  pub launcher_asset_id : String
  pub munition_type : String
  pub quantity : ℕ
  pub received_at : String
  pub region_id : Option String

-- `DeclaredLoadConfig` of frontend/src/deployment.ts
pub record DeclaredLoadConfig : Type 0 where
  pub asset : Dict (Dict ℕ)
  pub variant : Dict (Dict ℕ)

pub record Launcher : Type 0 where
  pub variant : Option String
  pub region_id : Option String

pub record LastSeen : Type 0 where
  pub t : Option ℕ
  pub region_id : Option String

pub record LedgerInputs : Type 0 where
  pub fleet : List LedgerLauncherInput
  pub launches : List LedgerLaunchInput
  pub resupplies : List LedgerResupplyInput
  pub tracks : List LedgerTrackInput
  pub declared_load : Option DeclaredLoadConfig
  -- none for the theater
  pub region_id : Option String
  pub as_of_ms : ℕ

abbrev pub asset_load : Option DeclaredLoadConfig → String → Option (Dict ℕ)
asset_load none id = none
asset_load (some c) id = Dict.get id c.asset

abbrev pub variant_load : Option DeclaredLoadConfig → Option String → Option (Dict ℕ)
variant_load (some c) (some v) = Dict.get v c.variant
variant_load _ _ = none

unfoldable pub declared_launchers :
    Option DeclaredLoadConfig → List LedgerLauncherInput → Dict Launcher → Dict Launcher
declared_launchers load [] d = d
declared_launchers load (a ∷ fleet) d = declared_launchers load fleet (
    if Dict.is_some (asset_load load a.asset_id) || Dict.is_some (variant_load load a.variant)
    then Dict.put a.asset_id (record { variant = a.variant; region_id = a.region_id }) d
    else d)

-- an entry that is at least as late replaces the one that is there
unfoldable pub seen : String → Option ℕ → Option String → Dict LastSeen → Dict LastSeen
seen id t region_id latest = elim (Dict.get id latest) [
  | none ↦ Dict.put id (record { t = t; region_id = region_id }) latest
  | some prev ↦
      if at_most prev.t t
      then Dict.put id (record { t = t; region_id = region_id }) latest
      else latest
]

unfoldable pub launches_seen :
    (String → Option ℕ) → List LedgerLaunchInput → Dict LastSeen → Dict LastSeen
unfolding seen
launches_seen date_parse [] d = d
launches_seen date_parse (l ∷ ls) d =
    launches_seen date_parse ls (seen l.launcher_asset_id (date_parse l.launched_at) l.region_id d)

unfoldable pub resupplies_seen :
    (String → Option ℕ) → List LedgerResupplyInput → Dict LastSeen → Dict LastSeen
unfolding seen
resupplies_seen date_parse [] d = d
resupplies_seen date_parse (r ∷ rs) d =
    resupplies_seen date_parse rs
      (seen r.launcher_asset_id (date_parse r.received_at) r.region_id d)

-- the last fleet entry of an id is the one that its map holds
unfoldable pub fleet_by_id :
    List LedgerLauncherInput → Dict LedgerLauncherInput → Dict LedgerLauncherInput
fleet_by_id [] d = d
fleet_by_id (a ∷ fleet) d = fleet_by_id fleet (Dict.put a.asset_id a d)

abbrev pub launcher_of : Option LedgerLauncherInput → LastSeen → Launcher
launcher_of none last = record { variant = none; region_id = last.region_id }
launcher_of (some f) last = record { variant = f.variant; region_id = f.region_id }

unfoldable pub with_seen :
    Dict LedgerLauncherInput → List (String × LastSeen) → Dict Launcher → Dict Launcher
with_seen fleet [] d = d
with_seen fleet ((id, last) ∷ ls) d =
    with_seen fleet ls
      (if Dict.has id d then d else Dict.put id (launcher_of (Dict.get id fleet) last) d)

unfoldable pub launchers_of : (String → Option ℕ) → LedgerInputs → Dict Launcher
unfolding declared_launchers launches_seen resupplies_seen fleet_by_id with_seen
launchers_of date_parse args =
    with_seen (fleet_by_id args.fleet [])
      (resupplies_seen date_parse args.resupplies (launches_seen date_parse args.launches []))
      (declared_launchers args.declared_load args.fleet [])

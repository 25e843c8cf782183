-- ===== src/FleetTiers.antt =====
-- frontend/src/hooks/useFleetTiers.ts: the tracker that gates an asset's recovery, and one cycle of
-- the hook over the fleet. React's memo and its one-second tick only decide when a cycle runs.
pub mod Window
pub mod Recovery
pub mod Cycle
mod Tests
use openddil_demo.Base.{
  ℕ, zero, suc, ◌+◌, ◌-◌, ◌*◌, String, Bool, true, false, Option, none, some, List, [], ◌∷◌, ◌++◌,
  ◌==◌, ltb, length, any, map, if◌then◌else◌, or_else,
}
use openddil_demo.Base.Dict
use openddil_demo.Base.Dict.{Dict}
use openddil_demo.Json.{limit_ms}
use openddil_demo.AssetTier.{
  AssetTier, LivenessThresholds, ClassifyInput, classify_asset_tier, sample_ms,
  apply_recovery_hysteresis,
}

pub record TrackerEntry : Type 0 where
  pub samples : List ℕ
  pub last_tier : Option AssetTier

-- the columns of `FleetAsset` that the hook reads
pub record FleetAsset : Type 0 where
  pub asset_id : String
  pub last_sample_at : Option String
  pub edge_id : Option String
  pub health_state : Option String

pub data EdgeLinkSeveredSource : Type 0 where
  global : Bool → EdgeLinkSeveredSource
  per_edge : Dict Bool → EdgeLinkSeveredSource

unfoldable pub lookup_severed : Option String → Option EdgeLinkSeveredSource → Bool
lookup_severed edge_id none = false
lookup_severed edge_id (some (global severed)) = severed
lookup_severed none (some (per_edge m)) = false
lookup_severed (some e) (some (per_edge m)) =
    if e == "" then false else or_else (Dict.get e m) false

abbrev pub last_of : List ℕ → Option ℕ
last_of [] = none
last_of (x ∷ []) = some x
last_of (x ∷ y ∷ xs) = last_of (y ∷ xs)

-- `latest` is `-Infinity` for an empty window
abbrev pub is_newer : Option ℕ → ℕ → Bool
is_newer none s = true
is_newer (some latest) s = ltb latest s

unfoldable pub record_sample : Option ℕ → List ℕ → List ℕ
record_sample none samples = samples
record_sample (some s) samples = if is_newer (last_of samples) s then samples ++ s ∷ [] else samples

-- the `while` with `shift`
unfoldable pub trim : ℕ → List ℕ → List ℕ
trim window_start [] = []
trim window_start (x ∷ xs) =
    let rest = trim window_start xs in if ltb x window_start then rest else x ∷ xs

abbrev pub drop : ℕ → List ℕ → List ℕ
drop zero xs = xs
drop (suc n) [] = []
drop (suc n) (x ∷ xs) = drop n xs

-- the `splice`, which removes nothing while there are no more than `n`
abbrev pub keep_last : ℕ → List ℕ → List ℕ
keep_last n xs = drop (length xs - n) xs

-- A window that starts before the epoch starts at 0 here, and cuts the same samples: none.
abbrev pub window_start : LivenessThresholds → ℕ → ℕ
window_start th now_ms = now_ms - limit_ms th.recovery_window_s

unfoldable pub window_after : LivenessThresholds → ℕ → Option ℕ → List ℕ → List ℕ
unfolding record_sample trim
window_after th now_ms sample samples =
    keep_last th.recovery_samples_n (trim (window_start th now_ms) (record_sample sample samples))

-- what the classifier says of the asset at this time
abbrev pub candidate_of :
    (String → Option ℕ)
    → LivenessThresholds
    → Option EdgeLinkSeveredSource
    → ℕ
    → FleetAsset
    → AssetTier
candidate_of date_parse th severed now_ms a =
    classify_asset_tier date_parse
      (record {
        last_sample_at = a.last_sample_at;
        health_state = a.health_state;
        edge_link_severed = lookup_severed a.edge_id severed;
        now_ms = now_ms;
      })
      th

-- One asset of a cycle: the sample is recorded, the window trimmed, the tier gated and remembered.
-- The result is the asset's entry afterwards and the tier that is shown.
unfoldable pub track :
    (String → Option ℕ)
    → LivenessThresholds
    → Option EdgeLinkSeveredSource
    → ℕ
    → FleetAsset
    → TrackerEntry
    → TrackerEntry × AssetTier
track date_parse th severed now_ms a state =
    let samples = window_after th now_ms (sample_ms date_parse a.last_sample_at) state.samples in
    let tier =
      apply_recovery_hysteresis state.last_tier (candidate_of date_parse th severed now_ms a)
        (length samples) th.recovery_samples_n in
    (record { samples = samples; last_tier = some tier }, tier)

abbrev pub fresh : TrackerEntry
fresh = record { samples = []; last_tier = none }

abbrev pub Tracker : Type 0
Tracker = Dict TrackerEntry

-- what one asset's turn writes into the tracker and into the result
unfoldable pub turn :
    (String → Option ℕ)
    → LivenessThresholds
    → Option EdgeLinkSeveredSource
    → ℕ
    → FleetAsset
    → Tracker × Dict AssetTier
    → Tracker × Dict AssetTier
turn date_parse th severed now_ms a (tracker, out) =
    let state = or_else (Dict.get a.asset_id tracker) fresh in
    let (entry, tier) = track date_parse th severed now_ms a state in
    (Dict.put a.asset_id entry tracker, Dict.put a.asset_id tier out)

unfoldable pub turns :
    (String → Option ℕ)
    → LivenessThresholds
    → Option EdgeLinkSeveredSource
    → ℕ
    → List FleetAsset
    → Tracker × Dict AssetTier
    → Tracker × Dict AssetTier
unfolding turn
turns date_parse th severed now_ms [] s = s
turns date_parse th severed now_ms (a ∷ fleet) s =
    turns date_parse th severed now_ms fleet (turn date_parse th severed now_ms a s)

abbrev pub in_fleet : String → List FleetAsset → Bool
in_fleet id fleet = any (λ (a : FleetAsset). a.asset_id == id) fleet

-- entries of assets that have left the fleet are dropped
unfoldable pub drop_departed : List FleetAsset → List String → Tracker → Tracker
drop_departed fleet [] tracker = tracker
drop_departed fleet (id ∷ ids) tracker =
    drop_departed fleet ids (if in_fleet id fleet then tracker else Dict.remove id tracker)

unfoldable pub use_fleet_tiers :
    (String → Option ℕ)
    → LivenessThresholds
    → Option EdgeLinkSeveredSource
    → ℕ
    → List FleetAsset
    → Tracker
    → Tracker × Dict AssetTier
unfolding turns drop_departed
use_fleet_tiers date_parse th severed now_ms fleet tracker =
    let (tracker', out) = turns date_parse th severed now_ms fleet (tracker, []) in
    (drop_departed fleet (Dict.keys tracker') tracker', out)

-- ===== src/FleetTiers/Tests.antt =====
-- Runs of the classifier and the tracker on concrete samples.
use openddil_demo.Base.{
  ℕ, String, ◌≡◌, refl, true, false, Option, none, some, [], ◌∷◌, arith, ◌==◌, length,
  if◌then◌else◌, ◌≤◌, ◌↔◌,
}
use openddil_demo.Base.Dict.{Dict}
use openddil_demo.AssetTier.{
  active, degraded, comm_lost, lost, tier_order, ClassifyInput, default_liveness,
  classify_asset_tier, sample_ms, apply_recovery_hysteresis,
}
use openddil_demo.AssetTier.Deserved.{Deserves, place, classify_asset_tier_iff}
use openddil_demo.FleetTiers.{
  TrackerEntry, FleetAsset, global, track, candidate_of, window_after, use_fleet_tiers, in_fleet,
}
use openddil_demo.FleetTiers.Window.{IsWindow}
use openddil_demo.FleetTiers.Recovery.{track-IsWindow, track_recovery}
use openddil_demo.FleetTiers.Cycle.{IsShown, IsAbsent, use_fleet_tiers_result}

-- a clock that reads three timestamps
abbrev clock : String → Option ℕ
clock s =
    if s == "t1"
    then some 101000
    else if s == "t2"
    then some 102000
    else if s == "t3"
    then some 103000
    else none

abbrev truck : FleetAsset
truck = record {
  asset_id = "truck";
  last_sample_at = some "t3";
  edge_id = some "edge-01";
  health_state = some "HEALTH_STATE_FAULT";
}

abbrev at_t3 : ClassifyInput
at_t3 = record {
  last_sample_at = some "t3";
  health_state = none;
  edge_link_severed = true;
  now_ms = 104000;
}

abbrev silent_entry : TrackerEntry
silent_entry = record { samples = 101000 ∷ 102000 ∷ []; last_tier = some comm_lost }

classify_tests :
    (classify_asset_tier clock at_t3 default_liveness ≡ active)
    × (classify_asset_tier clock (record at_t3 { now_ms = 134000 }) default_liveness ≡ comm_lost)
    × (classify_asset_tier clock (record at_t3 { now_ms = 403001 }) default_liveness ≡ lost)
unfolding classify_asset_tier
classify_tests = (refl, refl, refl)

classify_asset_tier_iff_example :
    ((classify_asset_tier clock at_t3 default_liveness ≡ active)
      ↔ Deserves at_t3 default_liveness (sample_ms clock at_t3.last_sample_at) active)
    × (place
          (classify_asset_tier clock (record at_t3 { now_ms = 134000 }) default_liveness)
          tier_order
        ≤ place (classify_asset_tier clock at_t3 default_liveness) tier_order)
classify_asset_tier_iff_example =
    classify_asset_tier_iff clock at_t3 default_liveness 134000 active (omega arith)

shown_at_104 :
    (track clock default_liveness (some (global false)) 104000 truck silent_entry).1 ≡ degraded
unfolding track window_after classify_asset_tier apply_recovery_hysteresis sample_ms
shown_at_104 = refl

track-IsWindow_example :
    IsWindow default_liveness 104000
      (track clock default_liveness (some (global false)) 104000 truck silent_entry).0.samples
    × ((track clock default_liveness (some (global false)) 104000 truck silent_entry).0.last_tier
        ≡ some (track clock default_liveness (some (global false)) 104000 truck silent_entry).1)
track-IsWindow_example =
    track-IsWindow clock default_liveness (some (global false)) 104000 truck silent_entry
      (omega arith)

track_recovery_example :
    IsWindow default_liveness 104000
      (track clock default_liveness (some (global false)) 104000 truck silent_entry).0.samples
    × (length
          (track clock default_liveness (some (global false)) 104000 truck silent_entry).0.samples
        ≡ 3)
    × ((track clock default_liveness (some (global false)) 104000 truck silent_entry).1
        ≡ candidate_of clock default_liveness (some (global false)) 104000 truck)
unfolding track window_after classify_asset_tier apply_recovery_hysteresis sample_ms
track_recovery_example =
    track_recovery clock default_liveness (some (global false)) 104000 truck silent_entry comm_lost
      (omega arith) refl refl refl

abbrev before_cycle : Dict TrackerEntry
before_cycle = ("gone", silent_entry) ∷ []

use_fleet_tiers_result_example :
    ((in_fleet "gone" (truck ∷ []) ≡ true)
      ↔ IsShown clock default_liveness none 104000 "gone"
          (use_fleet_tiers clock default_liveness none 104000 (truck ∷ []) before_cycle))
    × ((in_fleet "gone" (truck ∷ []) ≡ false)
        ↔ IsAbsent clock default_liveness none 104000 "gone"
            (use_fleet_tiers clock default_liveness none 104000 (truck ∷ []) before_cycle))
use_fleet_tiers_result_example =
    use_fleet_tiers_result clock default_liveness none 104000 (truck ∷ []) before_cycle "gone"

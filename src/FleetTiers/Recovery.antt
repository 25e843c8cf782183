-- ===== src/FleetTiers/Recovery.antt =====
-- What it takes for a silent asset to be shown live again.
use openddil_demo.Base.{ℕ, String, ◌≡◌, refl, true, false, Option, some, arith, length}
use openddil_demo.AssetTier.{AssetTier, LivenessThresholds, is_live, sample_ms}
use openddil_demo.AssetTier.Laws.{hysteresis-live}
use openddil_demo.FleetTiers.{TrackerEntry, FleetAsset, EdgeLinkSeveredSource, track, candidate_of}
use openddil_demo.FleetTiers.Window.{Increasing, IsWindow, window_after-IsWindow}

module _ (date_parse : String → Option ℕ) (th : LivenessThresholds)
    (severed : Option EdgeLinkSeveredSource) (now_ms : ℕ) (a : FleetAsset)
    (state : TrackerEntry) where
  abbrev next : TrackerEntry × AssetTier
  next = track date_parse th severed now_ms a state

  -- Each turn of an asset leaves a window of distinct samples, none older than the recovery
  -- window, and at most `recovery_samples_n` of them, if the samples were distinct before. The
  -- entry remembers the tier that was shown.
  pub track-IsWindow :
      Increasing state.samples
      → IsWindow th now_ms next.0.samples × (next.0.last_tier ≡ some next.1)
  unfolding track
  track-IsWindow h = (
    window_after-IsWindow th now_ms (sample_ms date_parse a.last_sample_at) state.samples h,
    refl,
  )

  -- A silent asset is shown live again only if the classifier says so now and exactly
  -- `recovery_samples_n` distinct samples lie inside the recovery window.
  pub track_recovery :
      (before : AssetTier)
      → Increasing state.samples
      → state.last_tier ≡ some before
      → is_live before ≡ false
      → is_live next.1 ≡ true
      → IsWindow th now_ms next.0.samples
        × (length next.0.samples ≡ th.recovery_samples_n)
        × (next.1 ≡ candidate_of date_parse th severed now_ms a)
  unfolding track
  track_recovery before h was silent live =
      let w =
        window_after-IsWindow th now_ms (sample_ms date_parse a.last_sample_at) state.samples h in
      let (enough, same) =
        hysteresis-live state.last_tier (candidate_of date_parse th severed now_ms a)
          (length next.0.samples) th.recovery_samples_n before was silent live in
      (w, omega (arith, w.bounded, enough), same)

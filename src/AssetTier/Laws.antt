-- ===== src/AssetTier/Laws.antt =====
-- When the classifier of frontend/src/lib/assetTier.ts says that an asset is live, and the gate that
-- lets a silent asset back.
use openddil_demo.Base.{ℕ, ◌≤◌, ◌<◌, String, ◌≡◌, refl, ◌↔◌, true, false, Option, none, some, arith}
use openddil_demo.AssetTier.{
  AssetTier, LivenessThresholds, ClassifyInput, classify_sample, classify_asset_tier, is_live,
  apply_recovery_hysteresis, sample_ms,
}
use openddil_demo.AssetTier.Deserved.{IsWithin}

-- a sample is recent if neither threshold has passed since
abbrev pub IsRecent : ClassifyInput → LivenessThresholds → ℕ → Type 0
IsRecent input th s = IsWithin th.lost_after_s input s × IsWithin th.stale_after_s input s

live_sample :
    (input : ClassifyInput) (th : LivenessThresholds) (s : Option ℕ)
    → is_live (classify_sample input th s) ≡ true
    → (t : ℕ) × (s ≡ some t) × IsRecent input th t
unfolding classify_sample
live_sample input th none h = cc
live_sample input th (some t) h = (t, refl, ground arith)

recent_sample :
    (input : ClassifyInput) (th : LivenessThresholds) (s : Option ℕ)
    → (t : ℕ) × (s ≡ some t) × IsRecent input th t
    → is_live (classify_sample input th s) ≡ true
unfolding classify_sample
recent_sample input th none h = cc (h.1)
recent_sample input th (some u) (t, e, (h, k)) = ground arith

-- An asset is live exactly when it has a readable sample that neither threshold has outrun,
-- whatever its health and its link.
pub classify_asset_tier-live_iff :
    (date_parse : String → Option ℕ) (input : ClassifyInput) (th : LivenessThresholds)
    → (is_live (classify_asset_tier date_parse input th) ≡ true)
      ↔ ((t : ℕ) × (sample_ms date_parse input.last_sample_at ≡ some t) × IsRecent input th t)
unfolding classify_asset_tier
classify_asset_tier-live_iff date_parse input th = (
  live_sample input th (sample_ms date_parse input.last_sample_at),
  recent_sample input th (sample_ms date_parse input.last_sample_at),
)

-- When a silent asset looks live again, the gate shows it live exactly if there are enough samples
-- in the window, and otherwise shows the silent tier that it had.
pub apply_recovery_hysteresis_gate :
    (before candidate : AssetTier) (samples n : ℕ)
    → is_live before ≡ false
    → is_live candidate ≡ true
    → ((apply_recovery_hysteresis (some before) candidate samples n ≡ candidate) ↔ (n ≤ samples))
      × ((apply_recovery_hysteresis (some before) candidate samples n ≡ before) ↔ (samples < n))
unfolding apply_recovery_hysteresis
apply_recovery_hysteresis_gate before candidate samples n silent live =
    ((λ e. ground arith, λ h. ground arith), (λ e. ground arith, λ h. ground arith))

-- the form that the hook's proofs use
pub hysteresis-live :
    (memory : Option AssetTier) (candidate : AssetTier) (samples n : ℕ) (before : AssetTier)
    → memory ≡ some before
    → is_live before ≡ false
    → is_live (apply_recovery_hysteresis memory candidate samples n) ≡ true
    → (n ≤ samples) × (apply_recovery_hysteresis memory candidate samples n ≡ candidate)
unfolding apply_recovery_hysteresis
hysteresis-live none candidate samples n t e s h = cc
hysteresis-live (some u) candidate samples n t e s h = ground arith

-- ===== src/AssetTier.antt =====
-- frontend/src/lib/assetTier.ts: how alive an asset is, from its last sample, its health and its
-- link. Times are milliseconds since the epoch; `date_parse` stands for `Date.parse`, `none` for NaN.
pub mod Deserved
pub mod Laws
use openddil_demo.Base.{
  ℕ, ◌+◌, String, Bool, true, false, ◌||◌, Option, none, some, List, [], ◌∷◌, ◌==◌, ltb, leb,
  if◌then◌else◌,
}
use openddil_demo.Json.{Decimal, whole, limit_ms}

pub data AssetTier : Type 0 where
  active degraded stale comm_lost lost : AssetTier

-- worst to best
abbrev pub tier_order : List AssetTier
tier_order = lost ∷ comm_lost ∷ stale ∷ degraded ∷ active ∷ []

abbrev pub is_health : Option String → String → Bool
is_health none name = false
is_health (some s) name = s == name

unfoldable pub is_degraded_health : Option String → Bool
is_degraded_health health_state =
    is_health health_state "HEALTH_STATE_FAULT" || is_health health_state "HEALTH_STATE_FAILED"

-- `LivenessThresholds` of frontend/src/deployment.ts, in seconds; the merge leaves positive numbers,
-- and a count of samples that is whole
pub record LivenessThresholds : Type 0 where
  pub stale_after_s : Decimal
  pub lost_after_s : Decimal
  pub recovery_samples_n : ℕ
  pub recovery_window_s : Decimal

abbrev pub default_liveness : LivenessThresholds
default_liveness = record {
  stale_after_s = whole 30;
  lost_after_s = whole 300;
  recovery_samples_n = 3;
  recovery_window_s = whole 10;
}

pub record ClassifyInput : Type 0 where
  pub last_sample_at : Option String
  pub health_state : Option String
  pub edge_link_severed : Bool
  pub now_ms : ℕ

-- `x ? Date.parse(x) : NaN`
unfoldable pub sample_ms : (String → Option ℕ) → Option String → Option ℕ
sample_ms date_parse none = none
sample_ms date_parse (some s) = if s == "" then none else date_parse s

-- `ageS > limit` for `ageS = (nowMs - sampleMs) / 1000`; a sample in the future has no age
abbrev pub is_older : ℕ → ℕ → Decimal → Bool
is_older now_ms sample limit_s = ltb (sample + limit_ms limit_s) now_ms

unfoldable pub classify_sample : ClassifyInput → LivenessThresholds → Option ℕ → AssetTier
unfolding is_degraded_health
classify_sample input thresholds none = lost
classify_sample input thresholds (some sample) =
    if is_older input.now_ms sample thresholds.lost_after_s
    then lost
    else if is_older input.now_ms sample thresholds.stale_after_s
    then (if input.edge_link_severed then comm_lost else stale)
    else if is_degraded_health input.health_state
    then degraded
    else active

unfoldable pub classify_asset_tier :
    (String → Option ℕ) → ClassifyInput → LivenessThresholds → AssetTier
unfolding classify_sample sample_ms
classify_asset_tier date_parse input thresholds =
    classify_sample input thresholds (sample_ms date_parse input.last_sample_at)

unfoldable pub is_tier_visible_in_3d : AssetTier → Bool
is_tier_visible_in_3d lost = false
is_tier_visible_in_3d _ = true

-- in hundredths
unfoldable pub tier_opacity : AssetTier → ℕ
tier_opacity active = 100
tier_opacity degraded = 100
tier_opacity stale = 45
tier_opacity comm_lost = 45
tier_opacity lost = 0

pub data TierOutline : Type 0 where
  severity slate amber no_outline : TierOutline

unfoldable pub tier_outline : AssetTier → TierOutline
tier_outline active = severity
tier_outline degraded = severity
tier_outline stale = slate
tier_outline comm_lost = amber
tier_outline lost = no_outline

unfoldable pub tier_short_code : AssetTier → String
tier_short_code active = "AC"
tier_short_code degraded = "DG"
tier_short_code stale = "ST"
tier_short_code comm_lost = "CL"
tier_short_code lost = "LO"

unfoldable pub tier_label : AssetTier → String
tier_label active = "Active"
tier_label degraded = "Degraded"
tier_label stale = "Stale"
tier_label comm_lost = "Comm Lost"
tier_label lost = "Lost"

abbrev pub is_live : AssetTier → Bool
is_live active = true
is_live degraded = true
is_live _ = false

unfoldable pub apply_recovery_hysteresis : Option AssetTier → AssetTier → ℕ → ℕ → AssetTier
apply_recovery_hysteresis none candidate samples n = candidate
apply_recovery_hysteresis (some last) candidate samples n =
    if is_live candidate
    then (if is_live last then candidate else if leb n samples then candidate else last)
    else candidate

-- ===== src/Deployment/Terrain.antt =====
-- The checks of frontend/src/deployment.ts on the map, the terrain and the liveness thresholds. The
-- terrain block and the map are taken as they are, or not at all; thresholds are merged one by one.

use openddil_demo.Base.{
  has_prefix, ℕ, zero, suc, ◌*◌, String, Bool, true, false, not, ◌&&◌, ◌||◌, Option, none, some,
  List, [], ◌∷◌, ◌==◌, leb, if◌then◌else◌, or_else, all,
}
use openddil_demo.AssetTier.{LivenessThresholds, default_liveness}
use openddil_demo.Base.Sort.{holds_text}
use openddil_demo.Json.{
  Value, Decimal, whole, power_of_ten, undefined, member, as_text, as_bool, as_num, is_map,
  is_nonneg, is_positive, is_less, is_integer, floor,
}

pub record MapBounds : Type 0 where
  pub lat_min : Decimal
  pub lat_max : Decimal
  pub lon_min : Decimal
  pub lon_max : Decimal

pub record DeploymentMap : Type 0 where
  pub image : String
  pub bounds : MapBounds

abbrev pub box_of :
    Option Decimal → Option Decimal → Option Decimal → Option Decimal → Option MapBounds
box_of (some a) (some b) (some c) (some d) =
    if is_less a b && is_less c d
    then some (record { lat_min = a; lat_max = b; lon_min = c; lon_max = d })
    else none
box_of _ _ _ _ = none

abbrev pub bounds_of : Value → Option MapBounds
bounds_of b =
    box_of (as_num (member "lat_min" b)) (as_num (member "lat_max" b)) (as_num (member "lon_min" b))
      (as_num (member "lon_max" b))

-- the map, if it is valid
unfoldable pub deployment_map : Value → Option DeploymentMap
unfolding is_less
deployment_map x = elim (as_text (member "image" x)) [
  | none ↦ none
  | some image ↦ if image == "" then none else elim (bounds_of (member "bounds" x)) [
    | none ↦ none
    | some bounds ↦ some (record { image = image; bounds = bounds })
  ]
]

-- `s.includes(part)`
abbrev pub includes : String → String → Bool
includes part String.[] = part == ""
includes part (String.◌∷◌ c s) = has_prefix part (String.◌∷◌ c s) || includes part s

-- each of these accepts a field that is absent
abbrev pub is_template : Value → Bool
is_template undefined = true
is_template v =
    let s = or_else (as_text v) "" in includes "{z}" s && includes "{x}" s && includes "{y}" s

abbrev pub is_text : Value → Bool
is_text undefined = true
is_text v = not (or_else (as_text v) "" == "")

abbrev pub is_one_of : List String → Value → Bool
is_one_of words undefined = true
is_one_of words v = elim (as_text v) [ none ↦ false | some s ↦ holds_text s words ]

abbrev pub is_flag : Value → Bool
is_flag undefined = true
is_flag v = elim (as_bool v) [ none ↦ false | some b ↦ true ]

abbrev pub is_zoom : Value → Bool
is_zoom undefined = true
is_zoom v = elim (as_num v) [
  | none ↦ false
  | some d ↦ is_integer d && is_nonneg d && leb d.digits (22 * power_of_ten d.scale)
]

abbrev pub credit_keys : List String
credit_keys = "elevation" ∷ "imagery" ∷ "patchImagery" ∷ "land" ∷ "water" ∷ []

abbrev pub are_credits : Value → Bool
are_credits undefined = true
are_credits v = is_map v && all (λ k. is_text (member k v)) credit_keys

unfoldable pub is_valid_deployment_terrain : Value → Bool
is_valid_deployment_terrain t =
    is_map t
    && is_one_of ("relief" ∷ "imagery" ∷ "licensed" ∷ []) (member "basemap" t)
    && is_one_of ("sand" ∷ "slate" ∷ []) (member "reliefPalette" t)
    && is_flag (member "network" t)
    && is_template (member "elevationUrl" t)
    && is_template (member "imageryUrl" t)
    && is_template (member "patchImageryUrl" t)
    && is_text (member "landUrl" t)
    && is_text (member "lakesUrl" t)
    && is_text (member "waterUrl" t)
    && is_zoom (member "imageryMaxZoom" t)
    && is_zoom (member "patchMaxZoom" t)
    && are_credits (member "credits" t)

-- the value of `key` if it is a positive number
unfoldable pub pick_pos : Decimal → Value → Decimal
pick_pos d v = elim (as_num v) [ none ↦ d | some x ↦ if is_positive x then x else d ]

abbrev pub at_least_one : ℕ → ℕ
at_least_one zero = 1
at_least_one (suc n) = suc n

unfoldable pub merge_liveness : Value → LivenessThresholds
unfolding pick_pos
merge_liveness x = record {
  stale_after_s = pick_pos default_liveness.stale_after_s (member "stale_after_s" x);
  lost_after_s = pick_pos default_liveness.lost_after_s (member "lost_after_s" x);
  recovery_samples_n = at_least_one (
      floor (pick_pos (whole default_liveness.recovery_samples_n) (member "recovery_samples_n" x)));
  recovery_window_s = pick_pos default_liveness.recovery_window_s (member "recovery_window_s" x);
}

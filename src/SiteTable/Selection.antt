-- ===== src/SiteTable/Selection.antt =====
-- selectForTier of frontend/src/siteTable.ts: which rows of the table a tier's map draws.
use openddil_demo.Base.{
  String, ◌≡◌, refl, inl, inr, Bool, false, not, ◌&&◌, ◌||◌, Option, none, some, List, [], ◌∷◌,
  arith, ◌==◌, eq_iff, if◌then◌else◌, find, filter, any, truthy, Option-cases,
}
use openddil_demo.Json.{Decimal}
use openddil_demo.Deployment.Tier.{TierConfig}
use openddil_demo.SiteTable.{Fob, TierSite, SiteTable}

pub record HqLocation : Type 0 where
  pub lat : Decimal
  pub lon : Decimal
  pub label : Option String

pub record TierSelection : Type 0 where
  pub fobs : List Fob
  pub own_fob : Option String
  pub tier_sites : List TierSite
  pub hq : Option HqLocation

-- an empty label is left out
abbrev pub kept_label : Option String → Option String
kept_label o = if truthy o then o else none

abbrev pub location_of : Option TierSite → Option HqLocation
location_of none = none
location_of (some s) = some (record { lat = s.lat; lon = s.lon; label = kept_label s.label })

abbrev pub hq_location : SiteTable → Option HqLocation
hq_location table = location_of (find (λ (s : TierSite). s.tier_id == "hq") table.tier_sites)

abbrev pub selection : SiteTable → List Fob → Option String → TierSelection
selection table fobs own_fob = record {
  fobs = fobs;
  own_fob = own_fob;
  tier_sites = table.tier_sites;
  hq = hq_location table;
}

abbrev pub in_region : String → List Fob → List Fob
in_region region = filter (λ (f : Fob). f.region_id == region)

abbrev pub fob_at : String → SiteTable → Option Fob
fob_at id table = find (λ (f : Fob). f.edge_id == id) table.fobs

unfoldable pub select_for_tier : SiteTable → Option TierConfig → TierSelection
select_for_tier table none = selection table [] none
select_for_tier table (some tier) =
    if not (truthy tier.parent)
    then selection table table.fobs none
    else elim (fob_at tier.id table) [
      | some own ↦ selection table (in_region own.region_id table.fobs) (some tier.id)
      | none ↦ selection table (in_region tier.id table.fobs) none
    ]

-- the region whose FOBs a tier below the root draws
abbrev pub region_of_tier : SiteTable → String → String
region_of_tier table id = elim (fob_at id table) [ some own ↦ own.region_id | none ↦ id ]

-- a FOB with this edge id and this region is among them
abbrev pub draws : String → String → List Fob → Bool
draws edge region = any (λ (f : Fob). f.edge_id == edge && f.region_id == region)

draws-in_region :
    (edge region own : String) (fobs : List Fob)
    → draws edge region (in_region own fobs) ≡ (draws edge region fobs && region == own)
draws-in_region edge region own [] = ground arith
draws-in_region edge region own (f ∷ fobs) = ground (
  arith,
  draws-in_region edge region own fobs,
  eq_iff f.region_id region,
  eq_iff f.region_id own,
  eq_iff region own,
)

-- A configured tier without a parent draws every FOB of the table; one with a parent draws a FOB
-- exactly if the table has it and its region is that of the FOB which the tier serves, or the tier's
-- own id if it serves none; an instance whose tier is unknown draws none.
pub draws-select_for_tier :
    (table : SiteTable) (tier : Option TierConfig) (edge region : String)
    → draws edge region (select_for_tier table tier).fobs ≡ elim tier [
      | none ↦ false
      | some t ↦
          draws edge region table.fobs
          && (not (truthy t.parent) || region == region_of_tier table t.id)
    ]
unfolding select_for_tier
draws-select_for_tier table none edge region = refl
draws-select_for_tier table (some t) edge region = elim (Option-cases (fob_at t.id table)) [
  | inl e ↦ ground (arith, draws-in_region edge region t.id table.fobs)
  | inr (own, e) ↦ ground (arith, draws-in_region edge region own.region_id table.fobs)
]

-- ===== src/SiteTable/Tests.antt =====
-- Two FOBs of two regions and the site of one of these.
use openddil_demo.Base.{String, ◌≡◌, refl, true, false, none, some, [], ◌∷◌, ◌==◌}
use openddil_demo.Json.{whole, lookup, has_member}
use openddil_demo.Deployment.Tier.{TierConfig}
use openddil_demo.SiteTable.{
  Fob, TierSite, SiteTable, ok, fail, fob_row, duplicate, parse_site_table,
}
use openddil_demo.SiteTable.Accepted.{IsFob, IsTable, parse_site_table-IsTable}
use openddil_demo.SiteTable.Printed.{table_value, parse_site_table-table_value}
use openddil_demo.SiteTable.Selection.{select_for_tier, draws, draws-select_for_tier}

abbrev fob : String → String → Fob
fob edge_id region_id = record {
  edge_id = edge_id;
  region_id = region_id;
  lat = whole 51;
  lon = record { negative = true; digits = 5; scale = 1 };
  label = none;
}

abbrev north : TierSite
north = record { tier_id = "north"; lat = whole 52; lon = whole 1; label = some "North" }

abbrev two_fobs : SiteTable
two_fobs = record { fobs = fob "alpha" "north" ∷ fob "beta" "south" ∷ []; tier_sites = north ∷ [] }

fob-IsFob :
    (edge region : String)
    → ((edge == "") ≡ false)
    → ((region == "") ≡ false)
    → IsFob (fob edge region)
fob-IsFob edge region e r = record { edge = e; region = r; place = (refl, refl); label = refl }

two_fobs-IsTable : IsTable two_fobs
two_fobs-IsTable = record {
  fobs =
      (fob-IsFob "alpha" "north" refl refl, refl, (fob-IsFob "beta" "south" refl refl, refl, tt));
  sites = (record { tier = refl; place = (refl, refl); label = refl; apart = refl }, refl, tt);
}

two_fobs_read : parse_site_table (table_value two_fobs) ≡ ok two_fobs
two_fobs_read = parse_site_table-table_value two_fobs two_fobs-IsTable

parse_site_table-table_value_example : parse_site_table (table_value two_fobs) ≡ ok two_fobs
parse_site_table-table_value_example = parse_site_table-table_value two_fobs two_fobs-IsTable

parse_site_table-IsTable_example : IsTable two_fobs
parse_site_table-IsTable_example =
    parse_site_table-IsTable (table_value two_fobs) two_fobs two_fobs_read

-- the second of two rows with one edge id
abbrev twice : SiteTable
twice = record { fobs = fob "alpha" "north" ∷ fob "alpha" "south" ∷ []; tier_sites = [] }

twice_refused : parse_site_table (table_value twice) ≡ fail (fob_row 1 (duplicate "alpha"))
unfolding parse_site_table lookup has_member
twice_refused = refl

abbrev north_tier : TierConfig
north_tier = record {
  id = "north";
  label = none;
  scope = none;
  has_children = true;
  parent = some "hq";
}

draws-select_for_tier_example :
    draws "beta" "south" (select_for_tier two_fobs (some north_tier)).fobs ≡ false
draws-select_for_tier_example = draws-select_for_tier two_fobs (some north_tier) "beta" "south"

-- ===== src/Deployment/Tests.antt =====
-- Files of two sources, a tier of a region, and a title that is a number.
use openddil_demo.Base.{
  String, ◌≡◌, refl, true, false, ◌||◌, if◌then◌else◌, Option, none, some, List, [], ◌∷◌, trim,
}
use openddil_demo.Json.{
  Value, Entries, Fetched, failed, answered, whole, undefined, null, text, bool, num, array, object,
  done, entry, element, stop, lookup, has_member,
}
use openddil_demo.Deployment.Tier.{TierConfig, implicit_root, parse_tier}
use openddil_demo.Deployment.Lists.{
  tier, hq, EdgeAttachmentEntry, ChildLinkEntry, TierEntry, unless_empty, parse_edge_attachments,
  parse_child_links, parse_tiers,
}
use openddil_demo.Deployment.Reread.{IsTier, tier_value, parse_tier_reread}
use openddil_demo.Deployment.Says.{SaysEdge, SaysChild, SaysTier}
use openddil_demo.Deployment.Listed.{Selects, declared_lists_read}
use openddil_demo.Deployment.Merge.{has, AreDistinct, lookup-merge_deployment_sources}
use openddil_demo.Deployment.Load.{
  IsSound, IsDrawn, implicit_root-IsTier, merge_liveness-IsPositive,
}
use openddil_demo.Deployment.Loaded.{
  unbranded, tier_after, load_deployment-IsSound, load_deployment-unbranded, load_deployment-tier,
}
use openddil_demo.Deployment.{
  default_deployment, text_failed, merge_deployment_sources, Answers, sources, load_deployment,
}

abbrev east : TierConfig
east = record {
  id = "region-east";
  label = none;
  scope = none;
  has_children = true;
  parent = some "hq";
}

abbrev east_raw : Value
east_raw = object (
    entry "id" (text " region-east")
      (entry "scope" null (entry "has_children" (bool true) (entry "parent" (text "hq ") done))))

east_read : parse_tier east_raw ≡ some east
unfolding parse_tier lookup trim
east_read = refl

parse_tier_reread_example : IsTier east × (parse_tier (tier_value east) ≡ some east)
parse_tier_reread_example = parse_tier_reread east_raw east east_read

-- the second and the fourth are no attachments
abbrev rows : List Value
rows =
    object (entry "id" (text "alpha ") (entry "attachment" (text "hq") done))
    ∷ object (entry "id" (text "beta") (entry "hasChildren" (bool false) done))
    ∷ object (entry "id" (text "gamma") (entry "attachment" (text "tier") done))
    ∷ null
    ∷ []

abbrev rows_raw : Value
rows_raw = array (
    element (object (entry "id" (text "alpha ") (entry "attachment" (text "hq") done))) (
      element (object (entry "id" (text "beta") (entry "hasChildren" (bool false) done))) (
        element (object (entry "id" (text "gamma") (entry "attachment" (text "tier") done)))
          (element null stop))))

rows_read :
    parse_edge_attachments rows_raw
    ≡ some
        (record { id = "alpha"; attachment = hq } ∷ record { id = "gamma"; attachment = tier } ∷ [])
unfolding parse_edge_attachments lookup trim
rows_read = refl

declared_lists_read_example :
    ((es : List EdgeAttachmentEntry) × (parse_edge_attachments rows_raw ≡ some es)
      × Selects SaysEdge rows es)
    × ((cs : List ChildLinkEntry) × (parse_child_links rows_raw ≡ some cs)
        × Selects SaysChild rows cs)
    × ((ts : List TierEntry) × (parse_tiers rows_raw ≡ unless_empty ts) × Selects SaysTier rows ts)
declared_lists_read_example = declared_lists_read rows rows_raw refl

abbrev chart_file : Entries
chart_file = entry "title" (text "Chart") (entry "tier" east_raw done)

abbrev overlay_file : Entries
overlay_file = entry "title" (num (whole 5)) done

abbrev merged_file : Entries
merged_file = entry "title" (num (whole 5)) (entry "tier" east_raw done)

merged_files : merge_deployment_sources (some chart_file) (some overlay_file) ≡ some merged_file
unfolding merge_deployment_sources
merged_files = refl

chart_file-AreDistinct : AreDistinct chart_file
unfolding has_member
chart_file-AreDistinct = (refl, (refl, tt))

overlay_file-AreDistinct : AreDistinct overlay_file
unfolding has_member
overlay_file-AreDistinct = (refl, tt)

lookup-merge_deployment_sources_example :
    (lookup "title" merged_file ≡ (
      if has "title" overlay_file then lookup "title" overlay_file else lookup "title" chart_file))
    × (has "title" merged_file ≡ (has "title" overlay_file || has "title" chart_file))
lookup-merge_deployment_sources_example =
    lookup-merge_deployment_sources "title" (some chart_file) (some overlay_file) merged_file
      chart_file-AreDistinct overlay_file-AreDistinct merged_files

abbrev no_yaml : String → Option Value
no_yaml s = none

abbrev answers : Answers
answers = record {
  base = answered 200 (some (object chart_file));
  overlay = answered 200 (some (object overlay_file));
  sites = text_failed;
  branding = failed;
}

default-IsSound : IsSound default_deployment
default-IsSound = record {
  tier = implicit_root-IsTier;
  liveness = merge_liveness-IsPositive undefined;
}

load_deployment-IsSound_example :
    IsSound (load_deployment no_yaml answers default_deployment)
    × IsDrawn (load_deployment no_yaml answers default_deployment)
load_deployment-IsSound_example =
    load_deployment-IsSound no_yaml answers default_deployment default-IsSound

abbrev brand : Fetched
brand = answered 200 (some (object (entry "title" (text "Brand") (entry "tier" null done))))

load_deployment-unbranded_example :
    unbranded (load_deployment no_yaml (record answers { branding = brand }) default_deployment)
    ≡ unbranded (load_deployment no_yaml answers default_deployment)
load_deployment-unbranded_example =
    load_deployment-unbranded no_yaml answers brand default_deployment

load_deployment-tier_example :
    (load_deployment no_yaml answers default_deployment).tier
    ≡ tier_after (sources answers) default_deployment.tier
load_deployment-tier_example = load_deployment-tier no_yaml answers default_deployment

-- the declared tier is dropped for the title, and the instance is a root
titled_root : tier_after (some merged_file) default_deployment.tier ≡ some implicit_root
unfolding lookup
titled_root = refl

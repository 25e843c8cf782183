-- ===== src/Deployment.antt =====
-- frontend/src/deployment.ts: the configuration that an instance fetches before it renders. The
-- children have its parsers; this file has the whole configuration and how loadDeployment fills it.
-- The module's variable `active` is an argument and a result.
pub mod Tier
pub mod Lists
pub mod Moves
pub mod Panes
pub mod Terrain
pub mod Reread
pub mod Says
pub mod Listed
pub mod Merge
pub mod Load
pub mod Loaded
pub mod Keys
mod Tests
use openddil_demo.Base.{
  ℕ, String, Bool, true, false, not, ◌&&◌, ◌||◌, Option, none, some, List, [], ◌∷◌, ◌==◌,
  if◌then◌else◌, trim, or_else, truthy,
}
use openddil_demo.Json.{
  Value, Entries, Decimal, Fetched, failed, answered, is_ok, done, entry, undefined, null, text,
  object, member, as_text, is_nullish, has_member,
}
use openddil_demo.SiteTable.{
  Fob, TierSite, SiteTable, SiteError, Parsed, ok, fail, empty_site_table, parse_site_table_text,
}
use openddil_demo.SiteTable.Selection.{HqLocation, TierSelection, select_for_tier}
use openddil_demo.AssetTier.{LivenessThresholds}
use openddil_demo.Deployment.Tier.{TierConfig, implicit_root, parse_tier}
use openddil_demo.Deployment.Lists.{
  EdgeAttachmentEntry, ChildLinkEntry, TierEntry, parse_edge_attachments, parse_child_links,
  parse_tiers, parse_link_heartbeat_s,
}
use openddil_demo.Deployment.Moves.{MoveInputs, parse_move_inputs}
use openddil_demo.Deployment.Panes.{
  EgressPaneConfig, ManualQaConfig, ReleasedRecordsPaneConfig, CortexConfig, parse_egress_pane,
  parse_manual_qa, parse_released_records_panes, parse_cortex,
}
use openddil_demo.Deployment.Terrain.{
  DeploymentMap, deployment_map, is_valid_deployment_terrain, merge_liveness, includes,
}

pub record Deployment : Type 0 where
  pub title : String
  pub logo : String
  pub released_records_panes : List ReleasedRecordsPaneConfig
  pub egress_pane : Option EgressPaneConfig
  pub manual_qa : Option ManualQaConfig
  pub cortex : Option CortexConfig
  pub fobs : List Fob
  pub own_fob : Option String
  pub tier_sites : List TierSite
  pub site_table_error : Option SiteError
  pub map : Option DeploymentMap
  pub terrain : Option Value
  pub liveness : LivenessThresholds
  pub tier : Option TierConfig
  pub edges : Option (List EdgeAttachmentEntry)
  pub child_links : Option (List ChildLinkEntry)
  pub tiers : Option (List TierEntry)
  pub link_heartbeat_s : Option Decimal
  pub hq : Option HqLocation
  pub move_inputs : Option MoveInputs

abbrev pub default_title : String
default_title = "OpenDDIL"

-- `DEFAULT`
abbrev pub default_deployment : Deployment
default_deployment = record {
  title = default_title;
  logo = "";
  released_records_panes = [];
  egress_pane = none;
  manual_qa = none;
  cortex = none;
  fobs = [];
  own_fob = none;
  tier_sites = [];
  site_table_error = none;
  map = none;
  terrain = none;
  liveness = merge_liveness undefined;
  tier = some implicit_root;
  edges = none;
  child_links = none;
  tiers = none;
  link_heartbeat_s = none;
  hq = none;
  move_inputs = none;
}

abbrev pub parent_tier_name : Deployment → Option String
parent_tier_name d = elim d.tier [ none ↦ none | some t ↦ t.parent ]

unfoldable pub is_root_tier : Deployment → String → Bool
is_root_tier d id = elim d.tier [
  | none ↦ id == implicit_root.id
  | some t ↦ (not (truthy t.parent) && t.id == id) || id == implicit_root.id
]

abbrev pub parent_display : Deployment → String → String
parent_display d id = if is_root_tier d id then "HQ" else id

abbrev pub entries_of : Value → Option Entries
entries_of (object fs) = some fs
entries_of _ = none

-- the members of a same-origin file, if it is there and a plain object
unfoldable pub fetch_json_object : Fetched → Option Entries
fetch_json_object failed = none
fetch_json_object (answered status none) = none
fetch_json_object (answered status (some j)) = if is_ok status then entries_of j else none

-- a call for a text: it throws, or there is a status, a content type and a text, which is `none` if
-- `res.text()` throws
pub data FetchedText : Type 0 where
  text_failed : FetchedText
  text_answered : ℕ → Option String → Option String → FetchedText

unfoldable pub fetch_site_table_text : FetchedText → Option String
fetch_site_table_text text_failed = none
fetch_site_table_text (text_answered status content_type body) =
    if not (is_ok status)
    then none
    else if includes "text/html" (or_else content_type "")
    then none
    else body

-- an own member of the object is replaced in its place, a new one goes to the end
unfoldable pub put_entry : String → Value → Entries → Entries
put_entry k v done = entry k v done
put_entry k v (entry j w fs) = if j == k then entry j v fs else entry j w (put_entry k v fs)

-- `{ ...base, ...overlay }`
unfoldable pub spread : Entries → Entries → Entries
unfolding put_entry
spread base done = base
spread base (entry k v overlay) = spread (put_entry k v base) overlay

unfoldable pub merge_deployment_sources : Option Entries → Option Entries → Option Entries
unfolding spread
merge_deployment_sources none none = none
merge_deployment_sources base overlay =
    some (spread (spread done (or_else base done)) (or_else overlay done))

-- `x?.trim() || d`, which throws at a value that is neither a text nor null or absent
unfoldable pub title_or : String → Value → Option String
title_or d undefined = some d
title_or d null = some d
title_or d (text s) = some (if trim s == "" then d else trim s)
title_or d _ = none

-- absent is a root, present and bad is no tier
unfoldable pub tier_of : Value → Option TierConfig
unfolding parse_tier has_member
tier_of j = if has_member "tier" j then parse_tier (member "tier" j) else some implicit_root

abbrev pub terrain_of : Value → Option Value
terrain_of t = if is_valid_deployment_terrain t then some t else none

abbrev pub configured : String → String → Value → Deployment
configured title logo j = record {
  title = title;
  logo = logo;
  released_records_panes = parse_released_records_panes (member "releasedRecordsPanes" j);
  egress_pane = parse_egress_pane (member "egressPane" j);
  manual_qa = parse_manual_qa (member "manualQa" j);
  cortex = parse_cortex (member "cortex" j);
  fobs = [];
  own_fob = none;
  tier_sites = [];
  site_table_error = none;
  map = deployment_map (member "map" j);
  terrain = terrain_of (member "terrain" j);
  liveness = merge_liveness (member "liveness" j);
  tier = tier_of j;
  edges = parse_edge_attachments (member "edges" j);
  child_links = parse_child_links (member "childLinks" j);
  tiers = parse_tiers (member "tiers" j);
  link_heartbeat_s = parse_link_heartbeat_s (member "linkStatus" j);
  hq = none;
  move_inputs = parse_move_inputs j;
}

-- the first part of loadDeployment: the prior state is kept if there is no file, or if the title or
-- the logo throws
unfoldable pub apply_sources : Option Entries → Deployment → Deployment
unfolding title_or
apply_sources none active = active
apply_sources (some fs) active =
    let j = object fs in
    elim (title_or default_title (member "title" j)) [
      | none ↦ active
      | some title ↦ elim (title_or "" (member "logo" j)) [
        | none ↦ active
        | some logo ↦ configured title logo j
      ]
    ]

abbrev pub with_selection : TierSelection → Option SiteError → Deployment → Deployment
with_selection s error active = record active {
  fobs = s.fobs;
  own_fob = s.own_fob;
  tier_sites = s.tier_sites;
  hq = s.hq;
  site_table_error = error;
}

abbrev pub with_table : Parsed SiteTable → Deployment → Deployment
with_table (ok table) active = with_selection (select_for_tier table active.tier) none active
with_table (fail e) active =
    with_selection (select_for_tier empty_site_table active.tier) (some e) active

-- the second part: a missing table is an empty one, a rejected one is too, with its error
unfoldable pub apply_site_table : (String → Option Value) → Option String → Deployment → Deployment
unfolding select_for_tier parse_site_table_text
apply_site_table yaml none active = with_table (ok empty_site_table) active
apply_site_table yaml (some s) active = with_table (parse_site_table_text yaml s) active

-- a trimmed text, or the old one if it is blank or no text
abbrev pub branded : Value → String → String
branded v old = let s = trim (or_else (as_text v) "") in if s == "" then old else s

unfoldable pub apply_branding : Deployment → Value → Deployment
apply_branding d b = record d {
  title = branded (member "title" b) d.title;
  logo = branded (member "logo" b) d.logo;
}

-- the third part
unfoldable pub apply_branding_file : Fetched → Deployment → Deployment
unfolding apply_branding
apply_branding_file failed active = active
apply_branding_file (answered status none) active = active
apply_branding_file (answered status (some j)) active =
    if is_ok status then apply_branding active j else active

-- what the calls of loadDeployment come back with
pub record Answers : Type 0 where
  pub base : Fetched
  pub overlay : Fetched
  pub sites : FetchedText
  pub branding : Fetched

abbrev pub sources : Answers → Option Entries
sources a = merge_deployment_sources (fetch_json_object a.base) (fetch_json_object a.overlay)

-- `yaml` stands for the package's parser
unfoldable pub load_deployment : (String → Option Value) → Answers → Deployment → Deployment
unfolding apply_sources apply_site_table apply_branding_file
load_deployment yaml a active =
    apply_branding_file a.branding
      (apply_site_table yaml (fetch_site_table_text a.sites) (apply_sources (sources a) active))

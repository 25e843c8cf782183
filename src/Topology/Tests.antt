-- ===== src/Topology/Tests.antt =====
-- A region with two edges, whose own line is down: the edges are unreachable through it.
use openddil_demo.Base.{
  suc, ◌+◌, length, ℕ, String, ◌≡◌, refl, Bool, true, false, Option, none, some, List, [], ◌∷◌, All,
  map,
}
use openddil_demo.Base.Dict
use openddil_demo.Base.Dict.{Dict}
use openddil_demo.Json.{Decimal, whole}
use openddil_demo.SiteTable.{Fob}
use openddil_demo.Deployment.Lists.{TierEntry}
use openddil_demo.LinkStatus.{LinkStatusRow, LinkState, link_for_fob}
use openddil_demo.Move.{ms}
use openddil_demo.Topology.Enough.{placed_nodes_enough}
use openddil_demo.Topology.Nodes.{
  by_id, placed_nodes, place, place_each, fob_of_tier, site_of_tier, children_of, sum_from,
}
use openddil_demo.Topology.{
  EdgeState, own_state, unreachable, TopoEdge, node_ids, build_theater_topology,
}
use openddil_demo.Topology.Edges.{IsLine, build_theater_topology-IsLine}

abbrev fob : String → Fob
fob id = record { edge_id = id; region_id = "east"; lat = whole 10; lon = whole 20; label = none }

abbrev fobs : List Fob
fobs = fob "alpha" ∷ fob "beta" ∷ []

abbrev tier : String → String → Bool → TierEntry
tier id parent has_children = record { id = id; parent = some parent; has_children = has_children }

abbrev east : TierEntry
east = tier "east" "hq" true

abbrev edges : List TierEntry
edges = tier "alpha" "east" false ∷ tier "beta" "east" false ∷ []

abbrev parse_date : String → Option ℕ
parse_date s = some 1000

abbrev row : String → LinkStatusRow
row state = record {
  link_state = state;
  declared_idle = false;
  last_heartbeat_at = some "then";
  updated_at = some "now";
}

abbrev rows : Dict LinkStatusRow
rows = ("east", row "down") ∷ ("alpha", row "up") ∷ []

abbrev first : Decimal → Decimal → Decimal
first a b = b

abbrev whole_of : Decimal → ℕ → Decimal
whole_of a n = a

abbrev states : List TopoEdge → List (String × EdgeState)
states = map (λ (e : TopoEdge). (e.id, e.state))

east_cut :
    states
      (build_theater_topology first whole_of parse_date
        (whole 30)
        (east ∷ edges)
        fobs
        rows
        1000
        []).edges
    ≡ ("east", own_state LinkState.down)
      ∷ ("alpha", unreachable "east")
      ∷ ("beta", unreachable "east")
      ∷ []
unfolding build_theater_topology by_id place_each fob_of_tier site_of_tier children_of sum_from
    link_for_fob Dict.get Dict.put Dict.keys place ms
east_cut = refl

build_theater_topology-IsLine_example :
    All
      (IsLine
        (λ id. link_for_fob parse_date (whole 30) rows id 1000)
        (by_id [] (east ∷ edges))
        (node_ids
          (build_theater_topology first whole_of parse_date
            (whole 30)
            (east ∷ edges)
            fobs
            rows
            1000
            []).nodes))
      (build_theater_topology first whole_of parse_date
        (whole 30)
        (east ∷ edges)
        fobs
        rows
        1000
        []).edges
build_theater_topology-IsLine_example =
    build_theater_topology-IsLine first whole_of parse_date (whole 30) east edges fobs rows 1000 []

-- two regions, each the parent of the other
abbrev ring : List TierEntry
ring = tier "east" "west" true ∷ tier "west" "east" true ∷ tier "alpha" "west" false ∷ []

placed_nodes_enough_example :
    (place_each
      (place first whole_of
        (by_id [] ring)
        (fob_of_tier (by_id [] ring) [] fobs)
        (site_of_tier [] [])
        (children_of (by_id [] ring) [] (by_id [] ring))
        (suc (length (by_id [] ring)) + 5))
      (Dict.keys (by_id [] ring))
      (record { placed = []; visiting = [] })).1
    ≡ placed_nodes first whole_of (by_id [] ring) fobs []
placed_nodes_enough_example = placed_nodes_enough first whole_of ring fobs [] 5

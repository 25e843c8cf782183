-- ===== src/Topology.antt =====
-- frontend/src/lib/theaterTopology.ts: which tiers the theater's map draws, where, and the state of the
-- line from each to its parent. Nodes places the tiers. `walk` runs on as much fuel as there are nodes,
-- and one more.
pub mod Nodes
pub mod Unseen
pub mod Cut
pub mod Edges
pub mod Placed
pub mod Enough
mod Tests
use openddil_demo.Base.{
  ℕ, zero, suc, ◌+◌, ◌-◌, String, Bool, true, false, not, ◌&&◌, ◌||◌, Option, none, some, List, [],
  ◌∷◌, ◌++◌, map, ◌==◌, if◌then◌else◌, length, filter, truthy, or_else,
}
use openddil_demo.Base.Sort.{holds_text}
use openddil_demo.Base.Dict
use openddil_demo.Base.Dict.{Dict, is_some}
use openddil_demo.Json.{Decimal, whole}
use openddil_demo.SiteTable.{Fob, TierSite}
use openddil_demo.Deployment.Lists.{TierEntry}
use openddil_demo.LinkStatus.{
  LinkState, down, LinkReading, LinkCounts, LinkStatusRow, link_for_fob, summarize_links, is_down,
}
use openddil_demo.Topology.Nodes.{TopoNode, by_id, placed_nodes}

abbrev pub hq_node : String
hq_node = "hq"

pub data EdgeState : Type 0 where
  own_state : LinkState → EdgeState
  unreachable : String → EdgeState

pub record TopoEdge : Type 0 where
  pub id : String
  pub to : String
  pub reading : LinkReading
  pub state : EdgeState

pub record TopologyCounts : Type 0 where
  pub links : LinkCounts
  pub unreachable : ℕ

pub record TheaterTopology : Type 0 where
  pub nodes : List TopoNode
  pub edges : List TopoEdge
  pub counts : TopologyCounts

abbrev pub with_own : LinkReading → EdgeState → List LinkReading → List LinkReading
with_own r (own_state s) rest = record r { state = s } ∷ rest
with_own r (unreachable v) rest = rest

-- the readings of the edges that are not cut off
unfoldable pub own_readings : List TopoEdge → List LinkReading
own_readings [] = []
own_readings (e ∷ edges) = with_own e.reading e.state (own_readings edges)

unfoldable pub count_edges : List TopoEdge → TopologyCounts
unfolding own_readings
count_edges edges = record {
  links = summarize_links (own_readings edges);
  unreachable = length edges - length (own_readings edges);
}

-- a line to the parent if that is drawn, and otherwise to HQ
abbrev pub line_to : List String → String → String → String
line_to drawn id p = if not (p == "") && not (p == id) && holds_text p drawn then p else hq_node

abbrev pub line_end : List String → String → Option TierEntry → String
line_end drawn id none = hq_node
line_end drawn id (some t) = line_to drawn id (or_else t.parent "")

unfoldable pub parent_of_node : Dict TierEntry → List String → String → String
parent_of_node tiers drawn id = line_end drawn id (Dict.get id tiers)

-- the loop from `p` upwards, to the nearest tier whose own line is down
unfoldable pub walk : (String → String) → (String → Bool) → ℕ → String → List String → Option String
walk parent is_cut zero p seen = none
walk parent is_cut (suc fuel) p seen =
    let rest = walk parent is_cut fuel (parent p) (p ∷ seen) in
    if p == hq_node || holds_text p seen then none else if is_cut p then some p else rest

abbrev pub node_ids : List TopoNode → List String
node_ids [] = []
node_ids (n ∷ nodes) = n.id ∷ node_ids nodes

-- `via ? … : …`: an empty text counts as none
abbrev pub state_via : Option String → LinkReading → EdgeState
state_via none r = own_state r.state
state_via (some v) r = if v == "" then own_state r.state else unreachable v

unfoldable pub edge_of : (String → LinkReading) → Dict TierEntry → List String → TopoNode → TopoEdge
unfolding parent_of_node walk
edge_of own tiers drawn n =
    let parent = parent_of_node tiers drawn in
    record {
      id = n.id;
      to = parent n.id;
      reading = own n.id;
      state =
          state_via
            (walk parent (λ p. is_down (own p)) (suc (length drawn)) (parent n.id) (n.id ∷ []))
            (own n.id);
    }

abbrev pub topology_of : List TopoNode → List TopoEdge → TheaterTopology
topology_of nodes edges = record { nodes = nodes; edges = edges; counts = count_edges edges }

-- without tiers: each FOB has a line to HQ
abbrev pub flat_node : Fob → TopoNode
flat_node f = record {
  id = f.edge_id;
  lat = f.lat;
  lon = f.lon;
  derived = false;
  has_children = false;
  fob = some f;
}

abbrev pub flat_edge : (String → LinkReading) → Fob → TopoEdge
flat_edge own f = record {
  id = f.edge_id;
  to = hq_node;
  reading = own f.edge_id;
  state = own_state (own f.edge_id).state;
}

unfoldable pub build_theater_topology :
    (Decimal → Decimal → Decimal)
    → (Decimal → ℕ → Decimal)
    → (String → Option ℕ)
    → Decimal
    → List TierEntry
    → List Fob
    → Dict LinkStatusRow
    → ℕ
    → List TierSite
    → TheaterTopology
unfolding edge_of
build_theater_topology add divided date_parse heartbeat_s tiers fobs link_rows now_ms sites =
    let own = λ (id : String). link_for_fob date_parse heartbeat_s link_rows id now_ms in
    let known = by_id [] tiers in
    let nodes = placed_nodes add divided known fobs sites in
    elim tiers [
      | [] ↦ topology_of (map flat_node fobs) (map (flat_edge own) fobs)
      | t ∷ ts ↦ topology_of nodes (map (edge_of own known (node_ids nodes)) nodes)
    ]

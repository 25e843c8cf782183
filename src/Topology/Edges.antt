-- ===== src/Topology/Edges.antt =====
-- The lines of the theater's map: which are unreachable, and how many there are of each state.
use openddil_demo.Base.{
  ℕ, suc, ◌+◌, ◌≤◌, String, ◌≡◌, ◌↔◌, refl, sym, ap, ◌∙◌, inl, inr, true, false, not, ◌&&◌, Option,
  none, some, List, [], ◌∷◌, map, arith, ◌==◌, length, All, or_else, Bool-cases,
}
use openddil_demo.Base.Sort.{holds_text}
use openddil_demo.Base.Dict
use openddil_demo.Base.Dict.{Dict}
use openddil_demo.Json.{Decimal}
use openddil_demo.SiteTable.{Fob, TierSite}
use openddil_demo.Deployment.Lists.{TierEntry}
use openddil_demo.LinkStatus.{LinkReading, LinkStatusRow, link_for_fob, summarize_links, is_down}
use openddil_demo.LinkStatus.Reading.{total, total-summarize_from}
use openddil_demo.Topology.Cut.{IsCut, IsCut-named, walk_finds}
use openddil_demo.Topology.Nodes.{TopoNode, by_id, placed_nodes}
use openddil_demo.Topology.{
  hq_node, EdgeState, own_state, unreachable, TopoEdge, own_readings, count_edges, line_end,
  line_to, with_own, parent_of_node, walk, node_ids, state_via, edge_of, flat_node, flat_edge,
  build_theater_topology,
}

-- the line goes to a drawn tier that has a name, or to HQ
abbrev IsUpper : List String → String → Type 0
IsUpper drawn p = ((p == "") ≡ false) × ((p == hq_node) ≡ false → holds_text p drawn ≡ true)

line_to-IsUpper : (drawn : List String) (id p : String) → IsUpper drawn (line_to drawn id p)
line_to-IsUpper drawn id p =
    elim (Bool-cases (not (p == "") && not (p == id) && holds_text p drawn)) [
      | inl e ↦ rw e (ground arith, λ h. ground arith)
      | inr e ↦ rw e (refl, λ h. absurd (ground arith))
    ]

line_end-IsUpper :
    (drawn : List String) (id : String) (o : Option TierEntry) → IsUpper drawn (line_end drawn id o)
line_end-IsUpper drawn id none = (refl, λ h. absurd (ground arith))
line_end-IsUpper drawn id (some t) = line_to-IsUpper drawn id (or_else t.parent "")

parent-IsUpper :
    (tiers : Dict TierEntry) (drawn : List String) (id : String)
    → IsUpper drawn (parent_of_node tiers drawn id)
unfolding parent_of_node
parent-IsUpper tiers drawn id = line_end-IsUpper drawn id (Dict.get id tiers)

-- The tier `v` is the nearest one above `n` whose own line is down.
abbrev pub IsCutOff :
    (String → LinkReading) → Dict TierEntry → List String → String → String → Type 0
IsCutOff own tiers drawn n v =
    (steps : ℕ) × IsCut (parent_of_node tiers drawn) (λ p. is_down (own p)) n steps
      (parent_of_node tiers drawn n) v

state_via-unreachable :
    (o : Option String) (r : LinkReading) (v : String)
    → (state_via o r ≡ unreachable v) ↔ ((o ≡ some v) × ((v == "") ≡ false))
state_via-unreachable none r v = (λ h. absurd (ground arith), λ (h, k). absurd (ground arith))
state_via-unreachable (some w) r v = elim (Bool-cases (w == "")) [
  | inl e ↦ (λ h. absurd (ground arith), λ (h, k). absurd (ground arith))
  | inr e ↦ (λ h. (ground arith, ground arith), λ (h, k). ground arith)
]

-- the state of a line, for any function from a tier to the one above it
state_of_line :
    (parent : String → String) (own : String → LinkReading) (drawn : List String) (n v : String)
    → ((q : String) → IsUpper drawn (parent q))
    → (state_via
          (walk parent (λ p. is_down (own p)) (suc (length drawn)) (parent n) (n ∷ []))
          (own n)
        ≡ unreachable v)
      ↔ ((steps : ℕ) × IsCut parent (λ p. is_down (own p)) n steps (parent n) v)
state_of_line parent own drawn n v upper =
    let found = walk_finds parent (λ p. is_down (own p)) n drawn (λ q. (upper q).1) v in
    let via =
      state_via-unreachable
        (walk parent (λ p. is_down (own p)) (suc (length drawn)) (parent n) (n ∷ [])) (own n) v in
    (
      λ h. found.0 (via.0 h).0,
      λ (steps, c). via.1 (
        found.1 (steps, c),
        IsCut-named parent (λ p. is_down (own p)) n (λ q. (upper q).0) steps (parent n) v
            (upper n).0 c,
      ),
    )

edge_of-unreachable :
    (own : String → LinkReading) (tiers : Dict TierEntry) (drawn : List String) (n : TopoNode)
    (v : String)
    → ((edge_of own tiers drawn n).state ≡ unreachable v) ↔ IsCutOff own tiers drawn n.id v
unfolding edge_of
edge_of-unreachable own tiers drawn n v =
    state_of_line (parent_of_node tiers drawn) own drawn n.id v (parent-IsUpper tiers drawn)

All-map :
    {A B : Type 0} (P : B → Type 0) (f : A → B) (xs : List A)
    → ((x : A) → P (f x))
    → All P (map f xs)
All-map P f [] h = tt
All-map P f (x ∷ xs) h = (h x, All-map P f xs h)

length-with_own :
    (r : LinkReading) (s : EdgeState) (rest : List LinkReading)
    → length (with_own r s rest) ≤ suc (length rest)
length-with_own r (own_state s) rest = omega arith
length-with_own r (unreachable v) rest = omega arith

length-own_readings : (edges : List TopoEdge) → length (own_readings edges) ≤ length edges
unfolding own_readings
length-own_readings [] = omega arith
length-own_readings (e ∷ edges) =
    omega (arith, length-with_own e.reading e.state (own_readings edges), length-own_readings edges)

-- The counts of a map add up to the number of its lines.
count_edges-total :
    (edges : List TopoEdge)
    → total (count_edges edges).links + (count_edges edges).unreachable ≡ length edges
unfolding count_edges summarize_links
count_edges-total edges = omega (
  arith,
  length-own_readings edges,
  total-summarize_from (record { up = 0; idle = 0; down = 0; unknown = 0 }) (own_readings edges),
)

-- what a line says of its tier, for the tiers that are drawn
abbrev pub IsLine : (String → LinkReading) → Dict TierEntry → List String → TopoEdge → Type 0
IsLine own tiers drawn e =
    (e.reading ≡ own e.id)
    × (e.to ≡ parent_of_node tiers drawn e.id)
    × ((v : String) → (e.state ≡ unreachable v) ↔ IsCutOff own tiers drawn e.id v)

edge_of-IsLine :
    (own : String → LinkReading) (tiers : Dict TierEntry) (drawn : List String) (n : TopoNode)
    → IsLine own tiers drawn (edge_of own tiers drawn n)
unfolding edge_of
edge_of-IsLine own tiers drawn n = (refl, refl, edge_of-unreachable own tiers drawn n)

length-map : {A B : Type 0} (f : A → B) (xs : List A) → length (map f xs) ≡ length xs
length-map f [] = refl
length-map f (x ∷ xs) = ap suc (length-map f xs)

module _ (add : Decimal → Decimal → Decimal) (divided : Decimal → ℕ → Decimal)
    (date_parse : String → Option ℕ) (heartbeat_s : Decimal) where
  -- With a tree of tiers, each line of the map has its own tier's reading and runs to that tier's parent
  -- if this is drawn and to HQ otherwise; and it is unreachable through `v` exactly if `v` is the first
  -- tier above it, HQ and the tier itself not passed, whose own line is down.
  pub build_theater_topology-IsLine :
      (t : TierEntry) (ts : List TierEntry) (fobs : List Fob) (rows : Dict LinkStatusRow)
      (now_ms : ℕ) (sites : List TierSite)
      → let topology =
          build_theater_topology add divided date_parse heartbeat_s
            (t ∷ ts)
            fobs
            rows
            now_ms
            sites in
        All
          (IsLine
            (λ id. link_for_fob date_parse heartbeat_s rows id now_ms)
            (by_id [] (t ∷ ts))
            (node_ids topology.nodes))
          topology.edges
  unfolding build_theater_topology
  build_theater_topology-IsLine t ts fobs rows now_ms sites =
      let own = λ (id : String). link_for_fob date_parse heartbeat_s rows id now_ms in
      let known = by_id [] (t ∷ ts) in
      let nodes = placed_nodes add divided known fobs sites in
      All-map (IsLine own known (node_ids nodes)) (edge_of own known (node_ids nodes)) nodes
        (edge_of-IsLine own known (node_ids nodes))

  -- The counts of the map, over the four states and the lines that are unreachable, add up to the number
  -- of its nodes, with a tree of tiers or without.
  pub build_theater_topology_counts :
      (tiers : List TierEntry) (fobs : List Fob) (rows : Dict LinkStatusRow) (now_ms : ℕ)
      (sites : List TierSite)
      → let topology =
          build_theater_topology add divided date_parse heartbeat_s tiers fobs rows now_ms sites in
        total topology.counts.links + topology.counts.unreachable ≡ length topology.nodes
  unfolding build_theater_topology
  build_theater_topology_counts [] fobs rows now_ms sites =
      let own = λ (id : String). link_for_fob date_parse heartbeat_s rows id now_ms in
      count_edges-total (map (flat_edge own) fobs)
      ∙ (length-map (flat_edge own) fobs ∙ sym (length-map flat_node fobs))
  build_theater_topology_counts (t ∷ ts) fobs rows now_ms sites =
      let own = λ (id : String). link_for_fob date_parse heartbeat_s rows id now_ms in
      let known = by_id [] (t ∷ ts) in
      let nodes = placed_nodes add divided known fobs sites in
      count_edges-total (map (edge_of own known (node_ids nodes)) nodes)
      ∙ length-map (edge_of own known (node_ids nodes)) nodes

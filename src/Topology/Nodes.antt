-- ===== src/Topology/Nodes.antt =====
-- The nodes of buildTheaterTopology, frontend/src/lib/theaterTopology.ts: which tiers are drawn, and where.
-- `add` and `divided` are the language's sum of two numbers and quotient by a count, which round. `place`
-- recurses on fuel, one more than there are tiers: each call that goes deeper is for a tier that is not
-- being visited.
use openddil_demo.Base.{
  ℕ, zero, suc, String, Bool, true, false, not, ◌&&◌, Option, none, some, List, [], ◌∷◌, ◌++◌, ◌==◌,
  if◌then◌else◌, length, truthy, or_else,
}
use openddil_demo.Base.Sort.{holds_text}
use openddil_demo.Base.Dict
use openddil_demo.Base.Dict.{Dict, is_some}
use openddil_demo.Json.{Decimal, whole}
use openddil_demo.SiteTable.{Fob, TierSite}
use openddil_demo.Deployment.Lists.{TierEntry}

pub record TopoNode : Type 0 where
  pub id : String
  pub lat : Decimal
  pub lon : Decimal
  pub derived : Bool
  pub has_children : Bool
  pub fob : Option Fob

-- the first value of each key stays
abbrev pub put_new {ℓ} : {V : Type ℓ} → String → V → Dict V → Dict V
put_new k v d = if is_some (Dict.get k d) then d else Dict.put k v d

unfoldable pub by_id : Dict TierEntry → List TierEntry → Dict TierEntry
by_id d [] = d
by_id d (t ∷ ts) = by_id (put_new t.id t d) ts

unfoldable pub fob_of_tier : Dict TierEntry → Dict Fob → List Fob → Dict Fob
fob_of_tier tiers d [] = d
fob_of_tier tiers d (f ∷ fobs) =
    fob_of_tier tiers (if is_some (Dict.get f.edge_id tiers) then put_new f.edge_id f d else d) fobs

unfoldable pub site_of_tier : Dict TierSite → List TierSite → Dict TierSite
site_of_tier d [] = d
site_of_tier d (s ∷ sites) = site_of_tier (put_new s.tier_id s d) sites

abbrev pub is_child : Dict TierEntry → TierEntry → Bool
is_child tiers t =
    truthy t.parent
    && not (or_else t.parent "" == t.id)
    && is_some (Dict.get (or_else t.parent "") tiers)

unfoldable pub children_of :
    Dict TierEntry → Dict (List String) → Dict TierEntry → Dict (List String)
children_of tiers d [] = d
children_of tiers d ((k, t) ∷ rest) =
    let p = or_else t.parent "" in
    children_of tiers
      (if is_child tiers t then Dict.put p (or_else (Dict.get p d) [] ++ (t.id ∷ [])) d else d) rest

pub record Placing : Type 0 where
  pub placed : Dict (Option TopoNode)
  pub visiting : List String

abbrev pub with_node : Option TopoNode → Placing × List TopoNode → Placing × List TopoNode
with_node none (s, nodes) = (s, nodes)
with_node (some n) (s, nodes) = (s, n ∷ nodes)

unfoldable pub place_each :
    (String → Placing → Placing × Option TopoNode) → List String → Placing → Placing × List TopoNode
place_each place [] s = (s, [])
place_each place (k ∷ ks) s = with_node (place k s).1 (place_each place ks (place k s).0)

abbrev pub settle : String → List String → Placing → Option TopoNode → Placing × Option TopoNode
settle id visiting s node =
    (record { placed = Dict.put id node s.placed; visiting = visiting }, node)

module _ (add : Decimal → Decimal → Decimal) (divided : Decimal → ℕ → Decimal) where
  unfoldable pub sum_from : Decimal → (TopoNode → Decimal) → List TopoNode → Decimal
  sum_from acc of_node [] = acc
  sum_from acc of_node (k ∷ kids) = sum_from (add acc (of_node k)) of_node kids

  abbrev pub mean_of : (TopoNode → Decimal) → List TopoNode → Decimal
  mean_of of_node kids = divided (sum_from (whole 0) of_node kids) (length kids)

  abbrev pub mean_node : String → List TopoNode → Option TopoNode
  mean_node id [] = none
  mean_node id (k ∷ kids) = some (record {
    id = id;
    lat = mean_of (λ (n : TopoNode). n.lat) (k ∷ kids);
    lon = mean_of (λ (n : TopoNode). n.lon) (k ∷ kids);
    derived = true;
    has_children = true;
    fob = none;
  })

  abbrev pub fob_node : String → Bool → Fob → TopoNode
  fob_node id has_children f = record {
    id = id;
    lat = f.lat;
    lon = f.lon;
    derived = false;
    has_children = has_children;
    fob = some f;
  }

  abbrev pub site_node : String → Bool → TierSite → TopoNode
  site_node id has_children s = record {
    id = id;
    lat = s.lat;
    lon = s.lon;
    derived = false;
    has_children = has_children;
    fob = none;
  }

  abbrev pub rolls_up : Option TierEntry → Bool
  rolls_up none = false
  rolls_up (some t) = t.has_children

  module _ (tiers : Dict TierEntry) (fobs : Dict Fob) (sites : Dict TierSite)
      (children : Dict (List String)) where
    -- what becomes of a tier, with what the calls for its children give: it was placed, is being
    -- visited, has a FOB or a site, or stands in the middle of its children
    abbrev pub finish :
        String
        → Placing
        → Option (Option TopoNode)
        → Bool
        → Option Fob
        → Option TierSite
        → Placing × List TopoNode
        → Placing × Option TopoNode
    finish id s (some before) is_visited f site kids = (s, before)
    finish id s none true f site kids = (s, none)
    finish id s none false (some f) site kids =
        settle id s.visiting s (some (fob_node id (rolls_up (Dict.get id tiers)) f))
    finish id s none false none (some site) kids =
        settle id s.visiting s (some (site_node id (rolls_up (Dict.get id tiers)) site))
    finish id s none false none none kids = settle id s.visiting kids.0 (mean_node id kids.1)

    unfoldable pub place : ℕ → String → Placing → Placing × Option TopoNode
    unfolding place_each
    place zero id s = (s, none)
    place (suc fuel) id s =
        let kids =
          place_each (place fuel) (or_else (Dict.get id children) [])
            (record s { visiting = id ∷ s.visiting }) in
        finish id s (Dict.get id s.placed) (holds_text id s.visiting) (Dict.get id fobs)
          (Dict.get id sites) kids

-- the nodes of the tiers, in their order
abbrev pub placed_nodes :
    (Decimal → Decimal → Decimal)
    → (Decimal → ℕ → Decimal)
    → Dict TierEntry
    → List Fob
    → List TierSite
    → List TopoNode
placed_nodes add divided tiers fobs sites =
    (place_each
      (place add divided tiers (fob_of_tier tiers [] fobs) (site_of_tier [] sites)
        (children_of tiers [] tiers) (suc (length tiers)))
      (Dict.keys tiers) (record { placed = []; visiting = [] })).1

-- ===== src/Topology/Enough.antt =====
-- The fuel of buildTheaterTopology's placing is enough for every tree of tiers.
use openddil_demo.Base.{
  ℕ, suc, ◌+◌, String, ◌≡◌, refl, sym, ap, inl, inr, Bool, true, false, List, [], ◌∷◌, ◌++◌, arith,
  ◌==◌, eq_refl, if◌then◌else◌, length, All, All-append, or_else, Bool-cases, subst,
}
use openddil_demo.Base.Sort.{holds_text}
use openddil_demo.Base.Dict
use openddil_demo.Base.Dict.{Dict}
use openddil_demo.Json.{Decimal}
use openddil_demo.SiteTable.{Fob, TierSite}
use openddil_demo.Deployment.Lists.{TierEntry}
use openddil_demo.Topology.Placed.{IsKeyed, by_id-IsKeyed, place_each_enough}
use openddil_demo.Topology.Nodes.{
  place_each, place, by_id, is_child, children_of, fob_of_tier, site_of_tier, placed_nodes,
}

abbrev IsIn : List String → String → Type 0
IsIn ids k = holds_text k ids ≡ true

-- every child is a tier
abbrev AreIn : List String → Dict (List String) → Type 0
AreIn ids d = (id : String) → All (IsIn ids) (or_else (Dict.get id d) [])

put-AreIn :
    (ids : List String) (p k : String) (d : Dict (List String))
    → AreIn ids d
    → IsIn ids k
    → AreIn ids (Dict.put p (or_else (Dict.get p d) [] ++ (k ∷ [])) d)
put-AreIn ids p k d h hk id =
    let l = or_else (Dict.get p d) [] ++ (k ∷ []) in
    subst (λ o. All (IsIn ids) (or_else o [])) (sym (Dict.get-put p id l d))
      (elim (Bool-cases (p == id)) [
        | inl e ↦ rw e (All-append (IsIn ids) (or_else (Dict.get p d) []) (k ∷ []) (h p) (hk, tt))
        | inr e ↦ rw e (h id)
      ])

either-AreIn :
    (ids : List String) (b : Bool) (x y : Dict (List String))
    → AreIn ids x
    → AreIn ids y
    → AreIn ids (if b then x else y)
either-AreIn ids true x y hx hy = hx
either-AreIn ids false x y hx hy = hy

children_of-AreIn :
    (ids : List String) (tiers : Dict TierEntry) (rest : Dict TierEntry) (d : Dict (List String))
    → AreIn ids d
    → IsKeyed rest
    → All (IsIn ids) (Dict.keys rest)
    → AreIn ids (children_of tiers d rest)
unfolding children_of Dict.keys
children_of-AreIn ids tiers [] d h keyed hs = h
children_of-AreIn ids tiers ((k, t) ∷ rest) d h (e, keyed) (hk, hs) =
    let p = or_else t.parent "" in
    let pushed = Dict.put p (or_else (Dict.get p d) [] ++ (t.id ∷ [])) d in
    let here : IsIn ids t.id = subst (IsIn ids) e hk in
    children_of-AreIn ids tiers rest (if is_child tiers t then pushed else d)
      (either-AreIn ids (is_child tiers t) pushed d (put-AreIn ids p t.id d h here) h) keyed hs

more-IsIn : (j : String) (ids ks : List String) → All (IsIn ids) ks → All (IsIn (j ∷ ids)) ks
more-IsIn j ids [] h = tt
more-IsIn j ids (k ∷ ks) (h, hs) = (ground (arith, h), more-IsIn j ids ks hs)

each-IsIn : (ks : List String) → All (IsIn ks) ks
each-IsIn [] = tt
each-IsIn (k ∷ ks) = (ground (arith, eq_refl k), more-IsIn k ks ks (each-IsIn ks))

length-keys : (d : Dict TierEntry) → length (Dict.keys d) ≡ length d
unfolding Dict.keys
length-keys [] = refl
length-keys ((k, t) ∷ d) = ap suc (length-keys d)

-- Placing the tiers with any more fuel than one for each tier and one more gives the same nodes, also
-- where the tiers form a cycle.
pub placed_nodes_enough :
    (add : Decimal → Decimal → Decimal) (divided : Decimal → ℕ → Decimal) (ts : List TierEntry)
    (fobs : List Fob) (sites : List TierSite) (more : ℕ)
    → let tiers = by_id [] ts in
      (place_each
        (place add divided tiers
          (fob_of_tier tiers [] fobs)
          (site_of_tier [] sites)
          (children_of tiers [] tiers)
          (suc (length tiers) + more))
        (Dict.keys tiers)
        (record { placed = []; visiting = [] })).1
      ≡ placed_nodes add divided tiers fobs sites
unfolding Dict.get
placed_nodes_enough add divided ts fobs sites more =
    let tiers = by_id [] ts in
    let ids = Dict.keys tiers in
    let closed =
      children_of-AreIn ids tiers tiers [] (λ id. tt) (by_id-IsKeyed [] ts tt) (each-IsIn ids) in
    let size = length-keys tiers in
    ap (λ x. x.1)
      (place_each_enough add divided tiers (fob_of_tier tiers [] fobs) (site_of_tier [] sites)
        (children_of tiers [] tiers) ids closed (suc (length tiers) + more) (suc (length tiers)) ids
        (record { placed = []; visiting = [] }) (each-IsIn ids) (omega arith) (omega arith))

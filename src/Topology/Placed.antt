-- ===== src/Topology/Placed.antt =====
-- The placing of the tiers in buildTheaterTopology ends: more fuel than there are tiers gives no other
-- nodes, whatever cycles the tree has.
use openddil_demo.Base.{
  ℕ, zero, suc, ◌<◌, String, ◌≡◌, refl, ap, ◌∙◌, inl, inr, Bool, true, false, Option, none, some,
  List, [], ◌∷◌, arith, ◌==◌, eq_iff, length, All, or_else, Bool-cases,
}
use openddil_demo.Base.Sort.{holds_text}
use openddil_demo.Base.Dict
use openddil_demo.Base.Dict.{Dict, is_some}
use openddil_demo.Json.{Decimal}
use openddil_demo.SiteTable.{Fob, TierSite}
use openddil_demo.Deployment.Lists.{TierEntry}
use openddil_demo.Topology.Unseen.{unseen, unseen_less, unseen_bound}
use openddil_demo.Topology.Nodes.{
  TopoNode, Placing, with_node, place_each, finish, place, put_new, by_id,
}

abbrev Placer : Type 0
Placer = String → Placing → Placing × Option TopoNode

-- two placers that agree on the children, while the same tiers are visited, agree on the list
place_each_same :
    (p q : Placer) (visiting ids : List String)
    → ((k : String) (s : Placing) → holds_text k ids ≡ true → s.visiting ≡ visiting → p k s ≡ q k s)
    → ((k : String) (s : Placing) → (q k s).0.visiting ≡ s.visiting)
    → (ks : List String) (s : Placing) → All (λ k. holds_text k ids ≡ true) ks
    → s.visiting ≡ visiting
    → place_each p ks s ≡ place_each q ks s
unfolding place_each
place_each_same p q visiting ids same keep [] s h e = refl
place_each_same p q visiting ids same keep (k ∷ ks) s (h, hs) e =
    ap (λ x. with_node x.1 (place_each p ks x.0)) (same k s h e)
    ∙ ap (with_node (q k s).1)
        (place_each_same p q visiting ids same keep ks (q k s).0 hs (keep k s ∙ e))

module _ (add : Decimal → Decimal → Decimal) (divided : Decimal → ℕ → Decimal)
    (tiers : Dict TierEntry) (fobs : Dict Fob) (sites : Dict TierSite)
    (children : Dict (List String)) where
  abbrev at : ℕ → Placer
  at = place add divided tiers fobs sites children

  abbrev child_ids : String → List String
  child_ids id = or_else (Dict.get id children) []

  finish-visiting :
      (id : String) (s : Placing) (o : Option (Option TopoNode)) (b : Bool) (f : Option Fob)
      (site : Option TierSite) (kids : Placing × List TopoNode)
      → (finish add divided tiers fobs sites children id s o b f site kids).0.visiting ≡ s.visiting
  finish-visiting id s (some before) b f site kids = refl
  finish-visiting id s none true f site kids = refl
  finish-visiting id s none false (some f) site kids = refl
  finish-visiting id s none false none (some site) kids = refl
  finish-visiting id s none false none none kids = refl

  place-visiting : (fuel : ℕ) (id : String) (s : Placing) → (at fuel id s).0.visiting ≡ s.visiting
  unfolding place
  place-visiting zero id s = refl
  place-visiting (suc fuel) id s =
      finish-visiting id s (Dict.get id s.placed) (holds_text id s.visiting) (Dict.get id fobs)
        (Dict.get id sites) _

  -- a tier that is being visited does not look at its children
  finish-visited :
      (id : String) (s : Placing) (o : Option (Option TopoNode)) (b : Bool) (f : Option Fob)
      (site : Option TierSite) (kids kids2 : Placing × List TopoNode)
      → b ≡ true
      → finish add divided tiers fobs sites children id s o b f site kids
        ≡ finish add divided tiers fobs sites children id s o b f site kids2
  finish-visited id s (some before) b f site kids kids2 h = refl
  finish-visited id s none true f site kids kids2 h = refl
  finish-visited id s none false f site kids kids2 h = absurd (ground arith)

  module _ (ids : List String)
      (closed : (id : String) → All (λ k. holds_text k ids ≡ true) (child_ids id)) where
    place_enough :
        (m n : ℕ) (id : String) (s : Placing)
        → holds_text id ids ≡ true
        → unseen ids s.visiting < m
        → unseen ids s.visiting < n
        → at m id s ≡ at n id s
    unfolding place
    place_enough zero n id s h a b = absurd (omega arith)
    place_enough (suc m) zero id s h a b = absurd (omega arith)
    place_enough (suc m) (suc n) id s h a b = elim (Bool-cases (holds_text id s.visiting)) [
      | inl e ↦
          finish-visited id s (Dict.get id s.placed) (holds_text id s.visiting) (Dict.get id fobs)
            (Dict.get id sites)
            (place_each (at m) (child_ids id) (record s { visiting = id ∷ s.visiting }))
            (place_each (at n) (child_ids id) (record s { visiting = id ∷ s.visiting })) e
      | inr e ↦
          ap
            (finish add divided tiers fobs sites children id s (Dict.get id s.placed)
              (holds_text id s.visiting) (Dict.get id fobs) (Dict.get id sites))
            (place_each_same (at m) (at n) (id ∷ s.visiting) ids
              (λ k t there same.
                let bound : unseen ids t.visiting ≡ unseen ids (id ∷ s.visiting) =
                  ap (unseen ids) same in
                let less : unseen ids (id ∷ s.visiting) < unseen ids s.visiting =
                  unseen_less ids s.visiting id h e in
                place_enough m n k t there (omega arith) (omega arith))
              (place-visiting n) (child_ids id) (record s { visiting = id ∷ s.visiting })
              (closed id) refl)
    ]

    pub place_each_enough :
        (m n : ℕ) (ks : List String) (s : Placing)
        → All (λ k. holds_text k ids ≡ true) ks
        → length ids < m
        → length ids < n
        → place_each (at m) ks s ≡ place_each (at n) ks s
    place_each_enough m n ks s h a b =
        place_each_same (at m) (at n) s.visiting ids
          (λ k t there same.
            place_enough m n k t there (omega (arith, unseen_bound ids t.visiting))
              (omega (arith, unseen_bound ids t.visiting)))
          (place-visiting n) ks s h refl

-- every tier is under its own id
abbrev pub IsKeyed : Dict TierEntry → Type 0
IsKeyed [] = Unit {0}
IsKeyed ((k, t) ∷ d) = (k ≡ t.id) × IsKeyed d

put-IsKeyed : (t : TierEntry) (d : Dict TierEntry) → IsKeyed d → IsKeyed (Dict.put t.id t d)
unfolding Dict.put
put-IsKeyed t [] h = (refl, tt)
put-IsKeyed t ((j, w) ∷ d) (e, h) = elim (Bool-cases (j == t.id)) [
  | inl k ↦ rw k ((eq_iff j t.id).0 k, h)
  | inr k ↦ rw k (e, put-IsKeyed t d h)
]

put_new-IsKeyed : (t : TierEntry) (d : Dict TierEntry) → IsKeyed d → IsKeyed (put_new t.id t d)
put_new-IsKeyed t d h = elim (Bool-cases (is_some (Dict.get t.id d))) [
  | inl e ↦ rw e h
  | inr e ↦ rw e (put-IsKeyed t d h)
]

pub by_id-IsKeyed : (d : Dict TierEntry) (ts : List TierEntry) → IsKeyed d → IsKeyed (by_id d ts)
unfolding by_id
by_id-IsKeyed d [] h = h
by_id-IsKeyed d (t ∷ ts) h = by_id-IsKeyed (put_new t.id t d) ts (put_new-IsKeyed t d h)

-- ===== src/FleetTiers/Cycle.antt =====
-- One cycle of the hook over the whole fleet.
use openddil_demo.Base.{
  ℕ, String, ◌≡◌, refl, true, false, Option, none, some, List, [], ◌∷◌, arith, ◌==◌, any, eq_iff,
  if◌then◌else◌, Bool-cases, inl, inr, or_else, subst, ◌∙◌, ◌↔◌,
}
use openddil_demo.Base.Dict
use openddil_demo.Base.Dict.{Dict, get-put, get-put_self, get-remove, is_some}
use openddil_demo.AssetTier.{AssetTier, LivenessThresholds}
use openddil_demo.FleetTiers.{
  TrackerEntry, FleetAsset, EdgeLinkSeveredSource, Tracker, in_fleet, turn, turns, drop_departed,
  use_fleet_tiers, track, fresh,
}

has_key : (id : String) (tr : Tracker) → Dict.has id tr ≡ any (λ j. j == id) (Dict.keys tr)
unfolding Dict.get Dict.keys
has_key id [] = refl
has_key id ((j, v) ∷ tr) = ground (arith, has_key id tr)

-- departed ids lose their entry, the others keep theirs
get-drop_departed :
    (id : String) (fleet : List FleetAsset) (ids : List String) (tr : Tracker)
    → Dict.get id (drop_departed fleet ids tr) ≡ (
        if in_fleet id fleet
        then Dict.get id tr
        else if any (λ j. j == id) ids
        then none
        else Dict.get id tr)
unfolding drop_departed
get-drop_departed id fleet [] tr = ground arith
get-drop_departed id fleet (j ∷ ids) tr = elim (Bool-cases (in_fleet j fleet)) [
  | inl old ↦ rw old (ground (arith, get-drop_departed id fleet ids tr, eq_iff j id))
  | inr gone ↦ rw gone (
      ground
        (arith, get-drop_departed id fleet ids (Dict.remove j tr), get-remove j id tr, eq_iff j id))
]

module _ (date_parse : String → Option ℕ) (th : LivenessThresholds)
    (severed : Option EdgeLinkSeveredSource) (now_ms : ℕ) where
  abbrev State : Type 0
  State = Tracker × Dict AssetTier

  -- the asset has a tier in the result, and the tracker remembers the same
  abbrev pub IsShown : String → State → Type 0
  IsShown id s =
      (t : AssetTier) × (e : TrackerEntry) × (Dict.get id s.1 ≡ some t)
      × (Dict.get id s.0 ≡ some e)
      × (e.last_tier ≡ some t)

  turn-IsShown_self :
      (a : FleetAsset) (s : State) → IsShown a.asset_id (turn date_parse th severed now_ms a s)
  unfolding turn track
  turn-IsShown_self a (tr, out) =
      let (entry, tier) =
        track date_parse th severed now_ms a (or_else (Dict.get a.asset_id tr) fresh) in
      (tier, entry, get-put_self a.asset_id tier out, get-put_self a.asset_id entry tr, refl)

  turn_ne :
      (id : String) (a : FleetAsset) (s : State)
      → (a.asset_id == id) ≡ false
      → (Dict.get id (turn date_parse th severed now_ms a s).0 ≡ Dict.get id s.0)
        × (Dict.get id (turn date_parse th severed now_ms a s).1 ≡ Dict.get id s.1)
  unfolding turn
  turn_ne id a (tr, out) h = (simp (get-put, h), simp (get-put, h))

  turn-IsShown :
      (id : String) (a : FleetAsset) (s : State)
      → IsShown id s
      → IsShown id (turn date_parse th severed now_ms a s)
  turn-IsShown id a s (t, e, p, q, r) = elim (Bool-cases (a.asset_id == id)) [
    | inl same ↦
        subst (λ j. IsShown j (turn date_parse th severed now_ms a s))
          ((eq_iff a.asset_id id).0 same) (turn-IsShown_self a s)
    | inr other ↦ let (k, l) = turn_ne id a s other in (t, e, l ∙ p, k ∙ q, r)
  ]

  turns-IsShown_keep :
      (id : String) (fleet : List FleetAsset) (s : State)
      → IsShown id s
      → IsShown id (turns date_parse th severed now_ms fleet s)
  unfolding turns
  turns-IsShown_keep id [] s h = h
  turns-IsShown_keep id (a ∷ fleet) s h =
      turns-IsShown_keep id fleet (turn date_parse th severed now_ms a s) (turn-IsShown id a s h)

  turns-IsShown :
      (id : String) (fleet : List FleetAsset) (s : State)
      → in_fleet id fleet ≡ true
      → IsShown id (turns date_parse th severed now_ms fleet s)
  unfolding turns
  turns-IsShown id [] s h = cc
  turns-IsShown id (a ∷ fleet) s h = elim (Bool-cases (a.asset_id == id)) [
    | inl same ↦ turns-IsShown_keep id fleet _ (
        subst (λ j. IsShown j (turn date_parse th severed now_ms a s))
          ((eq_iff a.asset_id id).0 same) (turn-IsShown_self a s))
    | inr other ↦ turns-IsShown id fleet (turn date_parse th severed now_ms a s) (rw other at h)
  ]

  turns_absent :
      (id : String) (fleet : List FleetAsset) (s : State)
      → in_fleet id fleet ≡ false
      → Dict.get id (turns date_parse th severed now_ms fleet s).1 ≡ Dict.get id s.1
  unfolding turns
  turns_absent id [] s h = refl
  turns_absent id (a ∷ fleet) s h =
      let other : (a.asset_id == id) ≡ false = ground arith in
      let rest : in_fleet id fleet ≡ false = ground arith in
      turns_absent id fleet _ rest ∙ (turn_ne id a s other).1

  present :
      (fleet : List FleetAsset) (tracker : Tracker) (id : String)
      → in_fleet id fleet ≡ true
      → IsShown id (use_fleet_tiers date_parse th severed now_ms fleet tracker)
  unfolding use_fleet_tiers
  present fleet tracker id h =
      let s = turns date_parse th severed now_ms fleet (tracker, []) in
      let kept = get-drop_departed id fleet (Dict.keys s.0) s.0 in
      let (t, e, p, q, r) = turns-IsShown id fleet (tracker, []) h in
      (t, e, p, (rw h at kept) ∙ q, r)

  abbrev pub IsAbsent : String → State → Type 0
  IsAbsent id s = (Dict.get id s.1 ≡ none) × (Dict.get id s.0 ≡ none)

  departed :
      (fleet : List FleetAsset) (tracker : Tracker) (id : String)
      → in_fleet id fleet ≡ false
      → IsAbsent id (use_fleet_tiers date_parse th severed now_ms fleet tracker)
  unfolding use_fleet_tiers Dict.get
  departed fleet tracker id h =
      let s = turns date_parse th severed now_ms fleet (tracker, []) in
      let kept = get-drop_departed id fleet (Dict.keys s.0) s.0 in
      (turns_absent id fleet (tracker, []) h, ground (arith, kept, has_key id s.0))

  shown_absent : (id : String) (s : State) → IsShown id s → IsAbsent id s → ⊥
  shown_absent id s (t, e, p, q, r) (a, b) = cc

  -- After a cycle an asset has a tier, which the tracker remembers, exactly if it is in the fleet;
  -- it has neither a tier nor an entry exactly if it is not, whatever was tracked before.
  pub use_fleet_tiers_result :
      (fleet : List FleetAsset) (tracker : Tracker) (id : String)
      → ((in_fleet id fleet ≡ true)
          ↔ IsShown id (use_fleet_tiers date_parse th severed now_ms fleet tracker))
        × ((in_fleet id fleet ≡ false)
            ↔ IsAbsent id (use_fleet_tiers date_parse th severed now_ms fleet tracker))
  use_fleet_tiers_result fleet tracker id = (
    (
      present fleet tracker id,
      λ k. elim (Bool-cases (in_fleet id fleet)) [
        | inl h ↦ h
        | inr h ↦ absurd (shown_absent id _ k (departed fleet tracker id h))
      ],
    ),
    (
      departed fleet tracker id,
      λ k. elim (Bool-cases (in_fleet id fleet)) [
        | inl h ↦ absurd (shown_absent id _ (present fleet tracker id h) k)
        | inr h ↦ h
      ],
    ),
  )

-- ===== src/Move/Episode.antt =====
-- `latestEpisode` of frontend/src/lib/movePanel.ts: an asset's latest move, cut out of its posture
-- transitions, and the two durations read off it.
pub mod March
use openddil_demo.Base.{
  ℕ, String, Bool, true, false, ◌&&◌, not, Option, none, some, List, [], ◌∷◌, ◌==◌, filter, find,
  leb, if◌then◌else◌, truthy, or_else, ◌⧺◌,
}
use openddil_demo.Base.Int.{ℤ, sub_ℕ}
use openddil_demo.Base.Sort.{sort_by}
use openddil_demo.Move.{Known, Maybe, known, absent, ms}

-- the fields that the derivations read
pub record PostureTransition : Type 0 where
  pub subject : String
  pub origin : String
  pub target : String
  pub at : String
  pub motion_since : Option String

pub record Episode : Type 0 where
  pub march_ordered_at : String
  pub moving_at : Option String
  pub moving_motion_since : Option String
  pub halt_at : Option (Known String)
  pub emplacing_at : Option String
  pub emplaced_at : Option String
  pub phase : String

abbrev pub is_read : Option ℕ → Bool
is_read none = false
is_read (some t) = true

-- `ms(a.at) - ms(b.at)` is not positive; only transitions whose time is read are compared
abbrev pub instant : Option ℕ → ℕ
instant none = 0
instant (some t) = t

abbrev pub at_ms : (String → Option ℕ) → PostureTransition → Option ℕ
at_ms date_parse t = ms date_parse (some t.at)

unfoldable pub mine_of :
    (String → Option ℕ) → List PostureTransition → String → List PostureTransition
mine_of date_parse transitions asset_id =
    sort_by (λ a b. leb (instant (at_ms date_parse a)) (instant (at_ms date_parse b)))
      (filter (λ t. t.subject == asset_id && is_read (at_ms date_parse t)) transitions)

abbrev pub is_march : PostureTransition → Bool
is_march t = t.target == "march_ordered"

-- the loop from the end: the list from the last march order on
unfoldable pub from_last_march :
    List PostureTransition → Option (PostureTransition × List PostureTransition)
from_last_march [] = none
from_last_march (t ∷ ts) = elim (from_last_march ts) [
  | some r ↦ some r
  | none ↦ if is_march t then some (t, ts) else none
]

-- the slice ends before the next march order
unfoldable pub until_march : List PostureTransition → List PostureTransition
until_march [] = []
until_march (t ∷ ts) = let rest = until_march ts in if is_march t then [] else t ∷ rest

abbrev pub at_of : Option PostureTransition → Option String
at_of none = none
at_of (some t) = some t.at

abbrev pub motion_of : Option PostureTransition → Option String
motion_of none = none
motion_of (some t) = t.motion_since

abbrev pub halt_of : Option PostureTransition → Option (Known String)
halt_of none = none
halt_of (some out) =
    if truthy out.motion_since
    then some (record {
      value = or_else out.motion_since "";
      source = "motion_since of the transition out of moving";
      at = some out.at;
    })
    else some (record {
      value = out.at;
      source = "transition time of the transition out of moving (motion_since not carried)";
      at = some out.at;
    })

abbrev pub phase_of : PostureTransition → List PostureTransition → String
phase_of t [] = t.target
phase_of t (u ∷ us) = phase_of u us

unfoldable pub episode_of : PostureTransition → List PostureTransition → Episode
episode_of march after = record {
  march_ordered_at = march.at;
  moving_at = at_of (find (λ t. t.target == "moving") after);
  moving_motion_since = motion_of (find (λ t. t.target == "moving") after);
  halt_at = halt_of (find (λ t. t.origin == "moving") after);
  emplacing_at = at_of (find (λ t. t.target == "emplacing") after);
  emplaced_at = at_of (find (λ t. t.target == "emplaced") after);
  phase = phase_of march after;
}

unfoldable pub latest_episode :
    (String → Option ℕ) → List PostureTransition → String → Option Episode
unfolding from_last_march until_march episode_of mine_of
latest_episode date_parse transitions asset_id =
    elim (from_last_march (mine_of date_parse transitions asset_id)) [
      | none ↦ none
      | some (march, after) ↦ some (episode_of march (until_march after))
    ]

abbrev pub elapsed : Option ℕ → Option ℕ → Option ℤ
elapsed (some a) (some b) = some (sub_ℕ a b)
elapsed _ _ = none

-- a figure in milliseconds; the source divides it by 1000
abbrev pub timed : Option ℤ → String → String → Option String → Maybe ℤ
timed none why source at = absent why
timed (some s) why source at = known (record { value = s; source = source; at = at })

unfoldable pub march_order_time : (String → Option ℕ) → Episode → Maybe ℤ
march_order_time date_parse ep =
    if not (truthy ep.moving_at)
    then absent "not yet moving"
    else if not (truthy ep.moving_motion_since)
    then absent "moving transition carries no motion_since"
    else timed
        (elapsed (ms date_parse ep.moving_motion_since) (ms date_parse (some ep.march_ordered_at)))
        "march order or motion_since time unparseable"
        "edge time: moving motion_since minus march order" ep.moving_at

unfoldable pub emplace_time : (String → Option ℕ) → Episode → Maybe ℤ
emplace_time date_parse ep =
    if not (truthy ep.emplaced_at) then absent "not yet emplaced" else elim ep.halt_at [
      | none ↦ absent "no transition out of moving on record"
      | some halt ↦
          timed (elapsed (ms date_parse ep.emplaced_at) (ms date_parse (some halt.value)))
            "halt or emplaced time unparseable"
            ("edge time: emplaced minus halt (" ⧺ halt.source ⧺ ")") ep.emplaced_at
    ]

-- ===== src/Posture.antt =====
-- frontend/src/lib/posture.ts: the state of movement of an asset, and for how long it has held. The
-- figures of a duration are a value here, which `elapsed_text` spells.
pub mod Spans
mod Tests
use openddil_demo.Base.{
  ℕ, suc, ◌+◌, ◌-◌, ◌*◌, ◌/◌, ◌%◌, String, Bool, true, false, not, Option, none, some, List, [],
  ◌∷◌, ◌==◌, ltb, leb, if◌then◌else◌, ◌⧺◌, or_else, truthy, decimal, has_prefix,
}
use openddil_demo.Json.{Value, as_text}
use openddil_demo.Move.{ms}

pub data PostureStatus : Type 0 where
  unspecified emplaced march_ordered moving emplacing : PostureStatus

unfoldable pub normalize_posture : Value → PostureStatus
normalize_posture raw =
    let s = or_else (as_text raw) "" in
    if s == "emplaced"
    then emplaced
    else if s == "march_ordered"
    then march_ordered
    else if s == "moving"
    then moving
    else if s == "emplacing"
    then emplacing
    else unspecified

unfoldable pub posture_label : PostureStatus → String
posture_label unspecified = "—"
posture_label emplaced = "EMPLACED"
posture_label march_ordered = "MARCH ORDERED"
posture_label moving = "MOVING"
posture_label emplacing = "EMPLACING"

-- the larger figure and the smaller one
pub data Elapsed : Type 0 where
  seconds : ℕ → Elapsed
  minutes hours days : ℕ → ℕ → Elapsed

unfoldable pub elapsed_of : ℕ → Elapsed
elapsed_of s =
    if ltb s 60
    then seconds s
    else if ltb s 3600
    then minutes (s / 60) (s % 60)
    else if ltb s 86400
    then hours (s / 3600) ((s % 3600) / 60)
    else days (s / 86400) ((s % 86400) / 3600)

abbrev pub elapsed_text : Elapsed → String
elapsed_text (seconds s) = decimal s ⧺ "s"
elapsed_text (minutes m s) = decimal m ⧺ "m " ⧺ decimal s ⧺ "s"
elapsed_text (hours h m) = decimal h ⧺ "h " ⧺ decimal m ⧺ "m"
elapsed_text (days d h) = decimal d ⧺ "d " ⧺ decimal h ⧺ "h"

-- `diffMs < -5000` gives none; the whole seconds of a negative difference are 0
unfoldable pub seconds_in_state : (String → Option ℕ) → Option String → ℕ → Option ℕ
seconds_in_state date_parse since now_ms = elim (ms date_parse since) [
  | none ↦ none
  | some t ↦ if ltb (now_ms + 5000) t then none else some ((now_ms - t) / 1000)
]

unfoldable pub time_in_state : (String → Option ℕ) → Option String → ℕ → Option Elapsed
unfolding seconds_in_state elapsed_of
time_in_state date_parse since now_ms = elim (seconds_in_state date_parse since now_ms) [
  | none ↦ none
  | some s ↦ some (elapsed_of s)
]

abbrev pub labelled : String → Option Elapsed → String
labelled label none = label
labelled label (some e) = label ⧺ " " ⧺ elapsed_text e

unfoldable pub posture_text : (String → Option ℕ) → PostureStatus → Option String → ℕ → String
unfolding posture_label time_in_state
posture_text date_parse unspecified since now_ms = posture_label unspecified
posture_text date_parse s since now_ms =
    labelled (posture_label s) (time_in_state date_parse since now_ms)

pub record PostureCounts : Type 0 where
  pub unspecified : ℕ
  pub emplaced : ℕ
  pub march_ordered : ℕ
  pub moving : ℕ
  pub emplacing : ℕ

abbrev pub count_status : PostureStatus → PostureCounts → PostureCounts
count_status PostureStatus.unspecified c = record c { unspecified = suc c.unspecified }
count_status PostureStatus.emplaced c = record c { emplaced = suc c.emplaced }
count_status PostureStatus.march_ordered c = record c { march_ordered = suc c.march_ordered }
count_status PostureStatus.moving c = record c { moving = suc c.moving }
count_status PostureStatus.emplacing c = record c { emplacing = suc c.emplacing }

unfoldable pub count_from : PostureCounts → List PostureStatus → PostureCounts
count_from c [] = c
count_from c (s ∷ rows) = count_from (count_status s c) rows

unfoldable pub count_posture : List PostureStatus → PostureCounts
unfolding count_from
count_posture rows =
    count_from
      (record { unspecified = 0; emplaced = 0; march_ordered = 0; moving = 0; emplacing = 0 }) rows

abbrev pub is_posture_event : String → Bool
is_posture_event type = has_prefix "openddil.posture." type

-- ===== src/AlertFeed/Tests.antt =====
-- A feed of four events, newest first.
use openddil_demo.Base.{
  ℕ, String, ◌≡◌, refl, Option, none, some, List, [], ◌∷◌, ◌==◌, ◌⧺◌, if◌then◌else◌, map, sum_by,
  length, or_else,
}
use openddil_demo.Base.Dict
use openddil_demo.AlertFeed.{TacticalEvent, collapse_repeats, default_window_ms}
use openddil_demo.AlertFeed.Counts.{count_of, collapse_repeats_counts}

abbrev clock : String → Option ℕ
clock s =
    if s == "t1"
    then some 60000
    else if s == "t2"
    then some 120000
    else if s == "t9"
    then some 9000000
    else none

abbrev key_of : TacticalEvent → String
key_of e = e.subject ⧺ "," ⧺ e.type ⧺ "," ⧺ or_else e.severity "null"

abbrev event : String → String → TacticalEvent
event subject time = record { subject = subject; type = "transition"; severity = none; time = time }

abbrev feed : List TacticalEvent
feed = event "a" "t9" ∷ event "a" "t2" ∷ event "b" "t2" ∷ event "a" "t1" ∷ []

-- events of another subject do not break a group, and one outside the window starts a new one
feed_counts : map count_of (collapse_repeats clock key_of default_window_ms feed) ≡ 1 ∷ 2 ∷ 1 ∷ []
unfolding collapse_repeats Dict.get Dict.put
feed_counts = refl

collapse_repeats_counts_example :
    sum_by count_of (collapse_repeats clock key_of default_window_ms feed) ≡ length feed
collapse_repeats_counts_example = collapse_repeats_counts clock key_of default_window_ms feed

-- ===== src/LinkControl/Tests.antt =====
-- Runs of the link controller on a small network.
use openddil_demo.Base.{
  String, ◌≡◌, ◌≢◌, eq_iff, refl, Bool, true, false, none, some, List, [], ◌∷◌, map, if◌then◌else◌,
}
use openddil_demo.Json.{
  Value, bool, text, array, object, element, stop, entry, done, Fetched, failed, answered, lookup,
}
use openddil_demo.LinkControl.{
  Controller, initial, current_value, known, set_called, set_answered, refresh_done, refreshed, run,
  is_in, Event, clicked, posted, toxics_posted,
}
use openddil_demo.LinkControl.Truth.{listing, holds, reported, refresh_done_value, lists}
use openddil_demo.LinkControl.Apart.{IsListed}
use openddil_demo.LinkControl.Flight.{click_in_flight, click_refused, is_refused}
use openddil_demo.LinkControl.Race.{overlapping_clicks}

abbrev link : String → Bool → Value
link id up = object (entry "id" (text id) (entry "enabled" (bool up) done))

-- the uplink is up, the two children as told
abbrev network : Bool → Bool → Fetched
network a b = answered 200 (
    some (
      object (
        entry "uplink" (object (entry "parent" (text "hq") (entry "enabled" (bool true) done))) (
          entry "children" (array (element (link "edge-01" a) (element (link "edge-02" b) stop)))
            done))))

abbrev start : Controller
start = refresh_done (network true true) initial

start_values :
    (current_value "edge-01" start.state ≡ some true)
    × (current_value "uplink" start.state ≡ some true)
    × (current_value "edge-01" (refresh_done failed start).state ≡ none)
unfolding refresh_done current_value lookup
start_values = (refl, refl, refl)

refresh_done_value_example :
    current_value "edge-01" (refresh_done (network false true) start).state ≡ (
      if holds "edge-01" start (listing (network false true))
      then current_value "edge-01" start.state
      else reported "edge-01" (listing (network false true)))
refresh_done_value_example = refresh_done_value "edge-01" (network false true) start

known_edge : known "edge-01" start.state ≡ true
unfolding refresh_done known lookup
known_edge = refl

IsListed-edge : (a b : Bool) → IsListed "edge-01" (network a b)
unfolding listing lists lookup
IsListed-edge a b = refl

other_link : ◌≢◌ {A = String} "edge-02" "edge-01"
other_link e = let same : false ≡ true = (eq_iff "edge-02" "edge-01").1 e in cc

-- meanwhile the poll reads the network and another link is clicked and answered
abbrev meanwhile : List Event
meanwhile =
    refreshed (network true true)
    ∷ clicked "edge-02" false
    ∷ posted "edge-02" (some true) (answered 403 none)
    ∷ toxics_posted failed
    ∷ []

click_in_flight_example :
    (current_value "edge-01" (run meanwhile (set_called "edge-01" false start)).state ≡ some false)
    × (is_in "edge-01" (run meanwhile (set_called "edge-01" false start)).in_flight ≡ true)
click_in_flight_example =
    click_in_flight "edge-01" false start meanwhile known_edge
      (IsListed-edge true true, (other_link, (other_link, (tt, tt))))

click_refused_example :
    current_value "edge-01"
      (set_answered "edge-01"
        (current_value "edge-01" start.state)
        (answered 403 none)
        (run (map refreshed (network true true ∷ [])) (set_called "edge-01" false start))).state
    ≡ current_value "edge-01" start.state
unfolding is_refused
click_refused_example =
    click_refused "edge-01" false start (network true true ∷ []) (answered 403 none) known_edge
      (IsListed-edge true true, tt) refl

overlapping_clicks_example :
    let twice = set_called "edge-01" false (set_called "edge-01" true start) in
    let after =
      set_answered "edge-01" (current_value "edge-01" start.state) (answered 200 none) twice in
    (current_value "edge-01" twice.state ≡ some false)
    × (is_in "edge-01" twice.in_flight ≡ true)
    × (current_value "edge-01" (refresh_done (network true true) twice).state ≡ some false)
    × (current_value "edge-01" after.state ≡ some false)
    × (is_in "edge-01" after.in_flight ≡ false)
    × (current_value "edge-01" (refresh_done (network true true) after).state
        ≡ reported "edge-01" (listing (network true true)))
overlapping_clicks_example =
    overlapping_clicks "edge-01" true false 200 none (network true true) start known_edge
      (IsListed-edge true true) refl

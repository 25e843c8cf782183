-- ===== src/Move/Tests.antt =====
-- Runs of the move figures on concrete records.
use openddil_demo.Base.{
  ℕ, ◌+◌, ◌≤◌, String, ◌≡◌, refl, Bool, true, false, Option, none, some, List, [], ◌∷◌, map, ◌==◌,
  if◌then◌else◌, sum_by, Memᴰ,
}
use openddil_demo.Base.Sort.{sort_by}
use openddil_demo.Move.{ms}
use openddil_demo.Move.Episode.{PostureTransition, Episode, instant, latest_episode, is_march}
use openddil_demo.Move.Episode.March.{latest_episode_start}
use openddil_demo.Move.Ledger.{
  LedgerFire, LedgerResupply, LedgerDeclared, Ev, fire, resupply, ledger_row, replay_ledger, events,
  LedgerRow,
}
use openddil_demo.Move.Ledger.Totals.{fired_in_time, received_in_time, ledger_row_totals}
use openddil_demo.Move.Ledger.Peak.{fires, resupplies, Since, ledger_row_expended}
use openddil_demo.Move.Figures.{UnitQuantity, FuelStandard, LogisticsRow}

-- a clock that reads four timestamps
abbrev clock : String → Option ℕ
clock s =
    if s == "t1"
    then some 1000
    else if s == "t2"
    then some 2000
    else if s == "t3"
    then some 3000
    else if s == "t4"
    then some 4000
    else none

abbrev to_iso : ℕ → String
to_iso n = "t4"

abbrev order : String → PostureTransition
order at = record {
  subject = "himars-01";
  origin = "emplaced";
  target = "march_ordered";
  at = at;
  motion_since = none;
}

abbrev on_road : PostureTransition
on_road = record {
  subject = "himars-01";
  origin = "march_ordered";
  target = "moving";
  at = "t3";
  motion_since = some "t3";
}

abbrev halted : PostureTransition
halted = record {
  subject = "himars-01";
  origin = "moving";
  target = "emplaced";
  at = "t4";
  motion_since = none;
}

-- the transitions come in any order
abbrev history : List PostureTransition
history = halted ∷ order "t2" ∷ on_road ∷ order "t1" ∷ []

history_phase :
    latest_episode clock history "himars-01"
    ≡ some (record {
      march_ordered_at = "t2";
      moving_at = some "t3";
      moving_motion_since = some "t3";
      halt_at = some (record {
        value = "t4";
        source = "transition time of the transition out of moving (motion_since not carried)";
        at = some "t4";
      });
      emplacing_at = none;
      emplaced_at = some "t4";
      phase = "emplaced";
    })
unfolding latest_episode sort_by ms
history_phase = refl

latest_episode_start_example :
    (ep : Episode) × (u : PostureTransition) × (k : ℕ) × (latest_episode clock history "himars-01"
      ≡ some ep)
    × Memᴰ u history
    × ((u.subject == "himars-01") ≡ true)
    × (is_march u ≡ true)
    × (ep.march_ordered_at ≡ u.at)
    × (ms clock (some u.at) ≡ some k)
    × (instant (ms clock (some "t1")) ≤ k)
unfolding ms
latest_episode_start_example =
    latest_episode_start clock "himars-01" (halted ∷ order "t2" ∷ on_road ∷ []) (order "t1") [] refl
      refl refl

abbrev shot : String → ℕ → LedgerFire
shot at n = record { launched_at = at; munition_type = "rocket"; quantity = n }

abbrev load : String → ℕ → LedgerResupply
load at n = record { received_at = at; munition_type = "rocket"; quantity = n }

abbrev pod : LedgerDeclared
pod = record { label = "himars-01"; asset = some (("rocket", 12) ∷ []); variant = none }

abbrev shots : List LedgerFire
shots = shot "t1" 4 ∷ shot "t3" 3 ∷ shot "unread" 9 ∷ []

abbrev loads : List LedgerResupply
loads = load "t2" 6 ∷ []

ledger_row_totals_example :
    ((ledger_row pod none (events clock 4000 shots loads) "rocket").fired.value
      ≡ sum_by (fired_in_time clock 4000 "rocket") shots)
    × ((ledger_row pod none (events clock 4000 shots loads) "rocket").received.value
        ≡ sum_by (received_in_time clock 4000 "rocket") loads)
ledger_row_totals_example = ledger_row_totals clock 4000 "rocket" pod none shots loads

-- the surplus of loads over fires is not carried on
shots_expended : (ledger_row pod none (events clock 4000 shots loads) "rocket").expended.value ≡ 3
unfolding ledger_row events sort_by ms
shots_expended = refl

abbrev event : Bool → ℕ → Ev
event shooting n = record {
  t = 0;
  kind = if shooting then fire else resupply;
  key = "rocket";
  q = n;
}

ledger_row_expended_example :
    (fires "rocket" (event true 3 ∷ [])
      ≤ (ledger_row pod none
          (event true 4 ∷ event false 6 ∷ event true 3 ∷ [])
          "rocket").expended.value
        + resupplies "rocket" (event true 3 ∷ []))
    × Since "rocket"
        (event true 4 ∷ event false 6 ∷ event true 3 ∷ [])
        (ledger_row pod none
          (event true 4 ∷ event false 6 ∷ event true 3 ∷ [])
          "rocket").expended.value
ledger_row_expended_example =
    ledger_row_expended "rocket" pod none (event true 4 ∷ event false 6 ∷ []) (event true 3 ∷ [])

abbrev row_keys : List String
row_keys = map (λ (r : LedgerRow). r.munition_key) (replay_ledger clock to_iso pod shots loads 4000)

abbrev litres : String → ℕ → UnitQuantity
litres unit n = record { value = n; unit = unit }

abbrev truck_fuel : Option FuelStandard
truck_fuel =
    some (record { fuel_tank = some (litres "L" 400); fuel_burn_per_km = some (litres "L/km" 2) })

abbrev green : LogisticsRow
green = record { overall_severity = "GREEN"; computed_at = some "t4" }

-- ===== src/Posture/Tests.antt =====
-- An asset that has moved for an hour, two minutes and five seconds.
use openddil_demo.Base.{ℕ, ◌+◌, ◌-◌, ◌/◌, ◌≤◌, String, ◌≡◌, refl, Option, some}
use openddil_demo.Move.{ms}
use openddil_demo.Posture.{hours, time_in_state}
use openddil_demo.Posture.Spans.{IsFor, time_in_state-IsFor}

abbrev clock : String → Option ℕ
clock s = some 1000

since_then : time_in_state clock (some "then") 3726000 ≡ some (hours 1 2)
unfolding time_in_state ms
since_then = refl

time_in_state-IsFor_example :
    (t : ℕ) × (ms clock (some "then") ≡ some t)
    × (t ≤ 3726000 + 5000)
    × IsFor ((3726000 - t) / 1000) (hours 1 2)
time_in_state-IsFor_example = time_in_state-IsFor clock (some "then") 3726000 (hours 1 2) since_then

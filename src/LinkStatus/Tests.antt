-- ===== src/LinkStatus/Tests.antt =====
-- Readings of concrete rows.
use openddil_demo.Base.{
  ℕ, ◌+◌, ◌*◌, ◌/◌, ◌≤◌, String, ◌≡◌, refl, true, false, Option, none, some, List, [], ◌∷◌, ◌==◌,
  if◌then◌else◌, ◌↔◌,
}
use openddil_demo.Json.{whole}
use openddil_demo.Move.{ms}
use openddil_demo.LinkStatus.{LinkStatusRow, LinkReading, classify_link, up, down, stale, connected}
use openddil_demo.LinkStatus.Reading.{classify_link-up}
use openddil_demo.LinkStatus.Indicator.{LinkIndicatorStatus, is_stale, classify_link_indicator}
use openddil_demo.LinkStatus.Indicator.Vouched.{classify_link_indicator-connected}

abbrev clock : String → Option ℕ
clock s = if s == "t1" then some 100000 else none

abbrev row : LinkStatusRow
row = record {
  link_state = "up";
  declared_idle = false;
  last_heartbeat_at = none;
  updated_at = some "t1";
}

classify_link-up_example : ((classify_link clock (whole 5) (some row) 120000).state ≡ up) ↔ (
    (r : LinkStatusRow) × (t : ℕ) × (some row ≡ some r)
    × (ms clock r.updated_at ≡ some t)
    × (120000 ≤ t + (2 * 5 + 10 * 1) * 1000 / 1)
    × ((r.link_state == "up") ≡ true))
classify_link-up_example = classify_link-up clock (whole 5) (some row) 120000

abbrev readings : List LinkReading
readings =
    record { state = down; declared_idle = false }
    ∷ record { state = up; declared_idle = false }
    ∷ []

abbrev healthy : LinkIndicatorStatus
healthy = record { hq_link_severed = false; probe_healthy = true; updated_at = some "t1" }

-- after twenty seconds a label that was stale stays so, and one that was not does not become so
sticky_label :
    (classify_link_indicator clock (some healthy) false 120000 (some stale) ≡ stale)
    × (classify_link_indicator clock (some healthy) false 120000 none ≡ connected)
unfolding classify_link_indicator ms
sticky_label = (refl, refl)

classify_link_indicator-connected_example :
    (classify_link_indicator clock (some healthy) false 120000 none ≡ connected) ↔ (
      (s : LinkIndicatorStatus) × (t : ℕ) × (some healthy ≡ some s)
      × (false ≡ false)
      × (ms clock s.updated_at ≡ some t)
      × (120000 ≤ t + (if is_stale none then 10 else 30) * 1000)
      × (s.probe_healthy ≡ true)
      × (s.hq_link_severed ≡ false))
classify_link_indicator-connected_example =
    classify_link_indicator-connected clock (some healthy) false 120000 none

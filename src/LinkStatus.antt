-- ===== src/LinkStatus.antt =====
-- What the screen says of a link that it observes: frontend/src/lib/linkStatus.ts, which reads the rows
-- of the link monitor, and (in Indicator) frontend/src/lib/linkIndicator.ts, the uplink's label.
-- Times are milliseconds since the epoch, read by `date_parse` (`none` for NaN).
pub mod Indicator
pub mod Reading
mod Tests
use openddil_demo.Base.{
  ℕ, suc, ◌+◌, ◌*◌, ◌/◌, String, Bool, true, false, ◌||◌, ◌&&◌, not, Option, none, some, List, [],
  ◌∷◌, ◌==◌, ltb, leb, if◌then◌else◌, ◌⧺◌, decimal, all,
}
use openddil_demo.Base.Int.{ℤ, sub_ℕ}
use openddil_demo.Base.Dict
use openddil_demo.Base.Dict.{Dict}
use openddil_demo.Json.{Decimal, power_of_ten}
use openddil_demo.Move.{ms}

pub data LinkState : Type 0 where
  up idle down unknown : LinkState

pub data DdilLinkStatus : Type 0 where
  nominal severed idle_line unknown_line unreachable : DdilLinkStatus

pub data LinkIndicatorKind : Type 0 where
  no_row stale probe_down cut connected : LinkIndicatorKind

unfoldable pub ddil_status_of_link : LinkState → DdilLinkStatus
ddil_status_of_link up = nominal
ddil_status_of_link idle = idle_line
ddil_status_of_link down = severed
ddil_status_of_link unknown = unknown_line

unfoldable pub ddil_status_of_indicator : LinkIndicatorKind → DdilLinkStatus
ddil_status_of_indicator connected = nominal
ddil_status_of_indicator cut = severed
ddil_status_of_indicator _ = unknown_line

-- the columns that a reading uses
pub record LinkStatusRow : Type 0 where
  pub link_state : String
  pub declared_idle : Bool
  pub last_heartbeat_at : Option String
  pub updated_at : Option String

pub record LinkReading : Type 0 where
  pub state : LinkState
  pub declared_idle : Bool

-- The deployment's heartbeat, in seconds and positive, is an argument. Ages are whole milliseconds,
-- so the limit is its whole part.
unfoldable pub link_row_stale_ms : Decimal → ℕ
link_row_stale_ms heartbeat_s =
    let unit = power_of_ten heartbeat_s.scale in (2 * heartbeat_s.digits + 10 * unit) * 1000 / unit

abbrev pub state_word : String → LinkState
state_word w =
    if w == "up" then up else if w == "idle" then idle else if w == "down" then down else unknown

abbrev pub unread : LinkReading
unread = record { state = unknown; declared_idle = false }

-- `nowMs - updated > linkRowStaleMs()`
abbrev pub is_outdated : ℕ → ℕ → ℕ → Bool
is_outdated now_ms updated limit = ltb (updated + limit) now_ms

unfoldable pub classify_link :
    (String → Option ℕ) → Decimal → Option LinkStatusRow → ℕ → LinkReading
unfolding link_row_stale_ms
classify_link date_parse heartbeat_s none now_ms = unread
classify_link date_parse heartbeat_s (some row) now_ms = elim (ms date_parse row.updated_at) [
  | none ↦ unread
  | some updated ↦
      if is_outdated now_ms updated (link_row_stale_ms heartbeat_s)
      then unread
      else record { state = state_word row.link_state; declared_idle = row.declared_idle }
]

-- in milliseconds
abbrev pub age_of : Option ℕ → Option ℕ → Option ℤ
age_of (some updated) (some heartbeat) =
    if leb heartbeat updated then some (sub_ℕ updated heartbeat) else none
age_of _ _ = none

unfoldable pub link_data_age : (String → Option ℕ) → Option LinkStatusRow → Option ℤ
link_data_age date_parse none = none
link_data_age date_parse (some row) =
    age_of (ms date_parse row.updated_at) (ms date_parse row.last_heartbeat_at)

unfoldable pub link_for_fob :
    (String → Option ℕ) → Decimal → Dict LinkStatusRow → String → ℕ → LinkReading
unfolding classify_link
link_for_fob date_parse heartbeat_s rows edge_id now_ms =
    classify_link date_parse heartbeat_s (Dict.get edge_id rows) now_ms

abbrev pub upper : LinkState → String
upper up = "UP"
upper idle = "IDLE"
upper down = "DOWN"
upper unknown = "UNKNOWN"

abbrev pub is_idle : LinkState → Bool
is_idle idle = true
is_idle _ = false

abbrev pub link_state_word : LinkReading → String
link_state_word link =
    if is_idle link.state
    then if link.declared_idle then "IDLE · declared" else "IDLE"
    else upper link.state

pub record LinkCounts : Type 0 where
  pub up : ℕ
  pub idle : ℕ
  pub down : ℕ
  pub unknown : ℕ

abbrev pub count_state : LinkState → LinkCounts → LinkCounts
count_state LinkState.up c = record c { up = suc c.up }
count_state LinkState.idle c = record c { idle = suc c.idle }
count_state LinkState.down c = record c { down = suc c.down }
count_state LinkState.unknown c = record c { unknown = suc c.unknown }

unfoldable pub summarize_from : LinkCounts → List LinkReading → LinkCounts
summarize_from c [] = c
summarize_from c (l ∷ links) = summarize_from (count_state l.state c) links

unfoldable pub summarize_links : List LinkReading → LinkCounts
unfolding summarize_from
summarize_links links = summarize_from (record { up = 0; idle = 0; down = 0; unknown = 0 }) links

abbrev pub summary_text : LinkCounts → String
summary_text c =
    let base = decimal c.up ⧺ " UP · " ⧺ decimal c.idle ⧺ " IDLE · " ⧺ decimal c.down ⧺ " DOWN" in
    if ltb 0 c.unknown then base ⧺ " · " ⧺ decimal c.unknown ⧺ " UNKNOWN" else base

abbrev pub is_down : LinkReading → Bool
is_down l = elim l.state [ up ↦ false | idle ↦ false | down ↦ true | unknown ↦ false ]

unfoldable pub all_links_down : List LinkReading → Bool
all_links_down [] = false
all_links_down (l ∷ links) = all is_down (l ∷ links)

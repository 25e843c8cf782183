-- ===== src/LinkStatus/Indicator.antt =====
-- frontend/src/lib/linkIndicator.ts: the label of a tier's own uplink. It is a function of the row that
-- was observed, of the shape's error, of the time and of the label shown before.
pub mod Vouched
use openddil_demo.Base.{
  ℕ, ◌*◌, String, Bool, true, false, ◌&&◌, not, Option, none, some, ◌==◌, eqb, if◌then◌else◌, ltb,
}
use openddil_demo.Move.{ms}
use openddil_demo.LinkStatus.{
  LinkIndicatorKind, no_row, stale, probe_down, cut, connected, is_outdated,
}

abbrev pub stale_enter_s : ℕ
stale_enter_s = 30

abbrev pub stale_exit_s : ℕ
stale_exit_s = 10

pub record LinkIndicatorStatus : Type 0 where
  pub hq_link_severed : Bool
  pub probe_healthy : Bool
  pub updated_at : Option String

abbrev pub is_stale : Option LinkIndicatorKind → Bool
is_stale none = false
is_stale (some k) = elim k [
  | no_row ↦ false
  | stale ↦ true
  | probe_down ↦ false
  | cut ↦ false
  | connected ↦ false
]

-- how old a row may be, which depends on what was shown before
abbrev pub threshold_ms : Option LinkIndicatorKind → ℕ
threshold_ms prev = (if is_stale prev then stale_exit_s else stale_enter_s) * 1000

-- a row whose time cannot be read is infinitely old
abbrev pub is_too_old : Option ℕ → ℕ → ℕ → Bool
is_too_old none limit now_ms = true
is_too_old (some updated) limit now_ms = is_outdated now_ms updated limit

unfoldable pub classify_link_indicator :
    (String → Option ℕ)
    → Option LinkIndicatorStatus
    → Bool
    → ℕ
    → Option LinkIndicatorKind
    → LinkIndicatorKind
classify_link_indicator date_parse none is_error now_ms prev = no_row
classify_link_indicator date_parse (some status) is_error now_ms prev =
    if is_error
    then stale
    else if is_too_old (ms date_parse status.updated_at) (threshold_ms prev) now_ms
    then stale
    else if not status.probe_healthy
    then probe_down
    else if status.hq_link_severed
    then cut
    else connected

pub record LinkIndicatorInputs : Type 0 where
  pub present : Bool
  pub severed : Option Bool
  pub healthy : Option Bool
  pub updated_at : Option String
  pub is_error : Bool
  pub now_ms : ℕ

unfoldable pub link_indicator_inputs : Option LinkIndicatorStatus → Bool → ℕ → LinkIndicatorInputs
link_indicator_inputs none is_error now_ms = record {
  present = false;
  severed = none;
  healthy = none;
  updated_at = none;
  is_error = is_error;
  now_ms = now_ms;
}
link_indicator_inputs (some status) is_error now_ms = record {
  present = true;
  severed = some status.hq_link_severed;
  healthy = some status.probe_healthy;
  updated_at = status.updated_at;
  is_error = is_error;
  now_ms = now_ms;
}

abbrev pub same_bool : Bool → Bool → Bool
same_bool true b = b
same_bool false b = not b

abbrev pub same_flag : Option Bool → Option Bool → Bool
same_flag none none = true
same_flag (some a) (some b) = same_bool a b
same_flag _ _ = false

abbrev pub same_text : Option String → Option String → Bool
same_text none none = true
same_text (some a) (some b) = a == b
same_text _ _ = false

unfoldable pub same_link_indicator_inputs : LinkIndicatorInputs → LinkIndicatorInputs → Bool
same_link_indicator_inputs a b =
    same_bool a.present b.present
    && same_flag a.severed b.severed
    && same_flag a.healthy b.healthy
    && same_text a.updated_at b.updated_at
    && same_bool a.is_error b.is_error
    && eqb a.now_ms b.now_ms

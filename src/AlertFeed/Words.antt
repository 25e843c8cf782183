-- ===== src/AlertFeed/Words.antt =====
-- What a row of the feed says: shortSeverity, describeTransition and eventCause of
-- frontend/src/lib/alertFeed.ts. The event's data is a value off the wire.
use openddil_demo.Base.{
  String, not, Option, none, some, ◌==◌, if◌then◌else◌, ◌⧺◌, or_else, after_prefix,
}
use openddil_demo.Json.{Value, member, as_text}
use openddil_demo.AlertFeed.{TacticalEvent}

abbrev pub severity_transition_type : String
severity_transition_type = "openddil.logistics.v1.severity-transition"

unfoldable pub short_severity : Option String → String
short_severity none = ""
short_severity (some s) = elim (after_prefix "LOGISTICS_SEVERITY_" s) [
  | some rest ↦ rest
  | none ↦ or_else (after_prefix "CONFIG_STATUS_" s) s
]

abbrev pub unless_blank : String → Option String
unless_blank s = if s == "" then none else some s

unfoldable pub describe_transition : TacticalEvent → Value → Option String
unfolding short_severity
describe_transition e payload =
    let next = short_severity e.severity in
    let prev = short_severity (as_text (member "previous_severity" payload)) in
    if not (e.type == severity_transition_type)
    then none
    else if prev == ""
    then unless_blank next
    else if next == ""
    then some prev
    else some (prev ⧺ " → " ⧺ next)

abbrev pub text_of : Value → Option String
text_of v = unless_blank (or_else (as_text v) "")

unfoldable pub event_cause : Value → Option String
event_cause payload = elim (text_of (member "top_factor_description" payload)) [
  | some d ↦ some d
  | none ↦ text_of (member "top_factor" payload)
]

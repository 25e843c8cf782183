-- ===== src/CmReport.antt =====
-- frontend/src/lib/cmReport.ts: the form that reports a fault. It loads the asset's catalog of fault
-- codes, sends a report, and offers the fault that the built-in test (BIT) found.
pub mod Card
pub mod Form
mod Tests
use openddil_demo.Base.{
  ℕ, ◌/◌, ◌%◌, String, Bool, true, false, ◌||◌, ◌&&◌, not, Option, none, some, List, [], ◌∷◌, ◌++◌,
  ◌==◌, leb, ltb, eqb, if◌then◌else◌, or_else, ◌⧺◌, length, filter, any, find, decimal, trim,
}
use openddil_demo.Base.Sort.{sort_by, distinct, text_le, utf16}
use openddil_demo.Json.{
  Value, Fetched, failed, answered, member, as_text, as_list, is_ok, is_nullish, text,
}
use openddil_demo.ManualQa.{CatalogCode}

pub record ReportInput : Type 0 where
  pub asset_id : String
  pub component : String
  pub fault_code : String
  pub description : String

abbrev pub max_description_length : ℕ
max_description_length = 500

-- the body, if it has a list of codes; the rest of it is trusted
abbrev pub catalog_of : Value → Option Value
catalog_of body = elim (as_list (member "codes" body)) [ none ↦ none | some cs ↦ some body ]

unfoldable pub load_fault_catalog : Fetched → Option Value
load_fault_catalog failed = none
load_fault_catalog (answered status body) =
    if eqb status 404 || eqb status 401 || not (is_ok status)
    then none
    else elim body [ none ↦ none | some b ↦ catalog_of b ]

unfoldable pub code_options_for : List CatalogCode → String → List CatalogCode
code_options_for codes component =
    if component == "" then codes else filter (λ (c : CatalogCode). c.component == component) codes

abbrev pub no_fault_isolation_message : Option String → String
no_fault_isolation_message platform_variant =
    "No fault-isolation module for "
    ⧺ or_else platform_variant "this asset"
    ⧺ "; describe the fault"

-- what is sent; `none` where the source throws
unfoldable pub build_report_body : ReportInput → Option ReportInput
build_report_body input =
    let description = trim input.description in
    if description == ""
    then none
    else if not (leb (length (utf16 description)) max_description_length)
    then none
    else some (record input { description = description })

-- `or_else` takes the first member that is a text
unfoldable pub extract_error_message : ℕ → String → Option Value → String
extract_error_message status status_text body =
    let fallback =
      if status_text == "" then "request failed (" ⧺ decimal status ⧺ ")" else status_text in
    elim body [
      | none ↦ fallback
      | some b ↦
          or_else (as_text (member "message" b))
            (or_else (as_text (member "error" b)) (or_else (as_text (member "detail" b)) fallback))
    ]

pub data SubmitReportResult : Type 0 where
  sent : Value → SubmitReportResult
  unsent : ℕ → String → SubmitReportResult
  -- an exception out of the call
  thrown : SubmitReportResult

-- `json.event_id ?? ''`; `none` where that throws
abbrev pub event_of : Option Value → Option Value
event_of none = some (text "")
event_of (some b) =
    let id = member "event_id" b in
    if is_nullish b then none else if is_nullish id then some (text "") else some id

abbrev pub sent_of : Option Value → SubmitReportResult
sent_of none = thrown
sent_of (some id) = sent id

abbrev pub posted : String → Fetched → SubmitReportResult
posted status_text failed = thrown
posted status_text (answered status reply) =
    if eqb status 202
    then sent_of (event_of reply)
    else unsent status (extract_error_message status status_text reply)

unfoldable pub submit_report : ReportInput → String → Fetched → SubmitReportResult
unfolding build_report_body extract_error_message
submit_report input status_text res = elim (build_report_body input) [
  | none ↦ thrown
  | some body ↦ posted status_text res
]

abbrev pub slot_of : Value → List String
slot_of item = elim (as_text (member "slot_id" item)) [
  | none ↦ []
  | some slot ↦ if slot == "" then [] else slot ∷ []
]

unfoldable pub slots_of : List Value → List String
slots_of [] = []
slots_of (i ∷ is) = slot_of i ++ slots_of is

-- `installed` of the configuration state, where there is one
unfoldable pub component_options : Option Value → List String
unfolding slots_of
component_options none = []
component_options (some installed) = elim (as_list installed) [
  | none ↦ []
  | some is ↦ sort_by text_le (distinct (slots_of is))
]

pub record ManualDiscrepancy : Type 0 where
  pub component : String
  pub fault_code : String
  pub detected_at_ns : ℕ
  pub sources : List String

abbrev pub has_source : String → ManualDiscrepancy → Bool
has_source s d = any (λ (t : String). t == s) d.sources

abbrev pub is_bit_only : ManualDiscrepancy → Bool
is_bit_only d = has_source "telemetry_bit" d && not (has_source "operator_report" d)

abbrev pub newer : Option ManualDiscrepancy → ManualDiscrepancy → Bool
newer none d = true
newer (some best) d = ltb best.detected_at_ns d.detected_at_ns

unfoldable pub bit_only_from :
    Option ManualDiscrepancy → List ManualDiscrepancy → Option ManualDiscrepancy
bit_only_from best [] = best
bit_only_from best (d ∷ ds) =
    bit_only_from (if is_bit_only d && newer best d then some d else best) ds

unfoldable pub bit_only_discrepancy : Option (List ManualDiscrepancy) → Option ManualDiscrepancy
unfolding bit_only_from
bit_only_discrepancy none = none
bit_only_discrepancy (some ds) = bit_only_from none ds

abbrev pub label_of : ManualDiscrepancy → Option CatalogCode → String
label_of entry none = entry.fault_code
label_of entry (some c) = c.text

abbrev pub pad_two : ℕ → String
pad_two n = if ltb n 10 then "0" ⧺ decimal n else decimal n

-- hours and minutes in UTC of an instant in nanoseconds
unfoldable pub format_utc_hhmm : ℕ → String
format_utc_hhmm ns =
    let minutes = ns / 60000000000 in pad_two (minutes / 60 % 24) ⧺ ":" ⧺ pad_two (minutes % 60)

unfoldable pub describe_bit_discrepancy : ManualDiscrepancy → List CatalogCode → String
unfolding format_utc_hhmm
describe_bit_discrepancy entry catalog_codes =
    "Fault detected on "
    ⧺ entry.component
    ⧺ ": "
    ⧺ label_of entry (find (λ (c : CatalogCode). c.code == entry.fault_code) catalog_codes)
    ⧺ " ("
    ⧺ entry.fault_code
    ⧺ "), "
    ⧺ format_utc_hhmm entry.detected_at_ns
    ⧺ "Z. Record it?"

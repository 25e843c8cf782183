-- ===== src/Arrivals.antt =====
-- frontend/src/lib/arrivals.ts: the arrivals at an edge that nobody declared, and the call that
-- declares one.
pub mod Declared
mod Tests
use openddil_demo.Base.{
  ℕ, String, Bool, true, false, ◌||◌, ◌&&◌, not, Option, none, some, List, [], ◌∷◌, ◌==◌, eqb,
  if◌then◌else◌, or_else, ◌⧺◌, decimal, trim, all, length, filter, truthy, ltb,
}
use openddil_demo.Json.{
  Value, Fetched, failed, answered, member, as_text, as_bool, as_num, as_list, is_ok, is_truthy,
  null, is_nullish,
}

-- `{kind: 'ok'}` keeps the body, whose other fields are trusted
pub data Loaded {ℓ} (A : Type ℓ) : Type ℓ where
  loaded : A → Loaded A
  absent : Loaded A
  error : String → Loaded A

abbrev pub is_withheld : ℕ → Bool
is_withheld status = eqb status 401 || eqb status 403 || eqb status 404

abbrev pub is_listing : Value → Bool
is_listing v = elim (as_list v) [ none ↦ false | some vs ↦ true ]

-- `failure` is the message of the exception that `fetch` threw
unfoldable pub load_arrivals : String → Fetched → Loaded Value
load_arrivals failure failed = error failure
load_arrivals failure (answered status body) =
    if is_withheld status
    then absent
    else if not (is_ok status)
    then error ("arrivals request failed (" ⧺ decimal status ⧺ ")")
    else elim body [
      | none ↦ error "malformed arrivals response"
      | some b ↦
          if is_listing (member "undeclared" b) && is_listing (member "expected" b)
          then loaded b
          else error "malformed arrivals response"
    ]

pub data DeclareSource : Type 0 where
  declare expect_confirm : DeclareSource

pub record DeclareInput : Type 0 where
  pub asset_id : String
  pub edge_id : String
  pub serial : String
  pub unit : String
  pub originator_nation : String
  pub releasable_to : List String
  pub baseline_id : String
  pub source : DeclareSource
  pub confirm_serial : Option String

pub record DeclareBody : Type 0 where
  pub asset_id : String
  pub edge_id : String
  pub serial : Option String
  pub unit : String
  pub originator_nation : String
  pub releasable_to : List String
  pub baseline_id : Option String
  pub source : DeclareSource
  -- none for a key that is left out
  pub confirm_serial : Option String

unfoldable pub build_declare_body : DeclareInput → DeclareBody
build_declare_body input =
    let serial = trim input.serial in
    let baseline = trim input.baseline_id in
    record {
      asset_id = input.asset_id;
      edge_id = input.edge_id;
      serial = if serial == "" then none else some serial;
      unit = input.unit;
      originator_nation = input.originator_nation;
      releasable_to = input.releasable_to;
      baseline_id = if baseline == "" || baseline == "none" then none else some baseline;
      source = input.source;
      confirm_serial = elim input.source [
        | declare ↦ none
        | expect_confirm ↦ some (or_else input.confirm_serial "")
      ];
    }

pub data SubmitDeclarationResult : Type 0 where
  -- the record, whether the baseline was assigned, and a warning
  recorded : Value → Bool → Option String → SubmitDeclarationResult
  refused : ℕ → String → SubmitDeclarationResult
  failed_call : String → SubmitDeclarationResult

-- `json?.k`; a body that cannot be read is null
abbrev pub body_member : String → Option Value → Value
body_member k none = null
body_member k (some b) = member k b

-- `typeof x === 'string' && x`, falling through to the next
abbrev pub text_or : Option String → String → String
text_or o d = if truthy o then or_else o d else d

abbrev pub or_null : Value → Value
or_null v = if is_nullish v then null else v

abbrev pub is_true : Value → Bool
is_true v = or_else (as_bool v) false

abbrev pub refusal_reason : ℕ → String → Option Value → String
refusal_reason status status_text body = text_or (as_text (body_member "cause" body)) (
    text_or (as_text (body_member "error" body))
      (if status_text == "" then "request failed (" ⧺ decimal status ⧺ ")" else status_text))

unfoldable pub submit_declaration : String → String → Fetched → SubmitDeclarationResult
submit_declaration failure status_text failed = failed_call failure
submit_declaration failure status_text (answered status body) =
    if eqb status 201
    then recorded (or_null (body_member "declared" body))
        (is_true (body_member "baseline_assigned" body)) none
    else if eqb status 502 && is_true (body_member "declared" body)
    then recorded null false
        (some (or_else (as_text (body_member "cause" body)) "baseline assignment failed"))
    else refused status (refusal_reason status status_text body)

abbrev pub is_finite : Value → Bool
is_finite v = elim (as_num v) [ none ↦ false | some d ↦ true ]

abbrev pub is_summary_edge : Value → Bool
is_summary_edge e =
    is_finite (member "undeclared" e)
    && is_finite (member "expected" e)
    && is_finite (member "overdue" e)

abbrev pub summary_of : Option (List Value) → Loaded (List Value)
summary_of none = error "malformed arrivals summary"
summary_of (some edges) =
    if all is_summary_edge edges then loaded edges else error "malformed arrivals summary"

unfoldable pub load_arrivals_summary : String → Fetched → Loaded (List Value)
load_arrivals_summary failure failed = error failure
load_arrivals_summary failure (answered status body) =
    if is_withheld status
    then absent
    else if not (is_ok status)
    then error ("arrivals summary request failed (" ⧺ decimal status ⧺ ")")
    else elim body [
      | none ↦ error "malformed arrivals summary"
      | some b ↦ summary_of (as_list (member "edges" b))
    ]

pub record ArrivalsCounts : Type 0 where
  pub undeclared : ℕ
  pub expected : ℕ
  pub overdue : ℕ

abbrev pub listing : Value → List Value
listing v = or_else (as_list v) []

unfoldable pub arrivals_counts : Option (Loaded Value) → Option ArrivalsCounts
arrivals_counts none = none
arrivals_counts (some absent) = none
arrivals_counts (some (error message)) = none
arrivals_counts (some (loaded b)) = some (record {
  undeclared = length (listing (member "undeclared" b));
  expected = length (listing (member "expected" b));
  overdue = length (filter (λ x. is_truthy (member "overdue" x)) (listing (member "expected" b)));
})

-- ===== src/ManualQa.antt =====
-- frontend/src/lib/manualQa.ts: a question to the manual, the reading of its answer, and the gate that
-- decides whether an answer's text is shown. A data module code is called a DMC.
pub mod Gate
pub mod Scope
mod Tests
use openddil_demo.Base.{
  ℕ, String, Bool, true, false, ◌||◌, ◌&&◌, not, Option, none, some, List, [], ◌∷◌, ◌++◌, ◌==◌, leb,
  eqb, if◌then◌else◌, truthy, or_else, ◌⧺◌, length, filter, all, decimal, trim,
}
use openddil_demo.Base.Sort.{sort_by, distinct, text_le, holds_text, utf16}
use openddil_demo.Json.{
  Value, Elements, Fetched, undefined, text, array, object, failed, answered, member, as_text,
  as_list, is_ok,
}

pub record Citation : Type 0 where
  pub dmc : String
  pub title : Option String
  pub step : Option String

pub data AskResult : Type 0 where
  answer_given : String → List Citation → AskResult
  no_cited_answer : String → AskResult
  hidden no_session unavailable no_scope : AskResult
  error : ℕ → String → AskResult

pub record AskManualQuestionInput : Type 0 where
  pub asset_id : String
  pub question : String
  pub dmcs : List String

-- `x !== undefined && typeof x !== 'string'` fails
abbrev pub is_optional_text : Value → Bool
is_optional_text undefined = true
is_optional_text (text s) = true
is_optional_text _ = false

-- a value that is no object has no `dmc`, so its own test is not written out
unfoldable pub is_citation : Value → Bool
is_citation x =
    truthy (as_text (member "dmc" x))
    && is_optional_text (member "title" x)
    && is_optional_text (member "step" x)

abbrev pub citation : Value → Citation
citation x = record {
  dmc = or_else (as_text (member "dmc" x)) "";
  title = as_text (member "title" x);
  step = as_text (member "step" x);
}

-- the list's citations, if it has nothing else
unfoldable pub citations_of : List Value → Option (List Citation)
citations_of [] = some []
citations_of (x ∷ xs) =
    let rest = citations_of xs in
    if is_citation x then elim rest [ none ↦ none | some cs ↦ some (citation x ∷ cs) ] else none

abbrev pub malformed : ℕ → AskResult
malformed status = error status "malformed response"

abbrev pub answer_of : ℕ → Option String → Option (List Citation) → AskResult
answer_of status (some answer) (some citations) = answer_given answer citations
answer_of status _ _ = malformed status

abbrev pub all_citations : Option (List Value) → Option (List Citation)
all_citations none = none
all_citations (some xs) = citations_of xs

abbrev pub is_status : String → Value → Bool
is_status word body = or_else (as_text (member "status" body)) "" == word

unfoldable pub parse_ask_body : Value → ℕ → AskResult
unfolding citations_of is_citation
parse_ask_body body status =
    if is_status "answered" body
    then answer_of status (as_text (member "answer" body))
        (all_citations (as_list (member "citations" body)))
    else if is_status "no_cited_answer" body
    then no_cited_answer (or_else (as_text (member "reason" body)) "unknown")
    else malformed status

-- `status_text` stands for `res.statusText`
unfoldable pub extract_message : ℕ → String → Option Value → String
extract_message status status_text body =
    let fallback =
      if status_text == "" then "request failed (" ⧺ decimal status ⧺ ")" else status_text in
    elim body [ none ↦ fallback | some b ↦ or_else (as_text (member "error" b)) fallback ]

-- what is sent, if anything
unfoldable pub ask_request : AskManualQuestionInput → Option AskManualQuestionInput
ask_request input = elim input.dmcs [ [] ↦ none | d ∷ ds ↦ some input ]

abbrev pub ask_answer : String → Fetched → AskResult
ask_answer status_text failed = unavailable
ask_answer status_text (answered status body) =
    if eqb status 404
    then hidden
    else if eqb status 401 || eqb status 403
    then no_session
    else if eqb status 502
    then unavailable
    else if not (is_ok status)
    then error status (extract_message status status_text body)
    else elim body [ none ↦ malformed status | some b ↦ parse_ask_body b status ]

unfoldable pub ask_manual_question : AskManualQuestionInput → String → Fetched → AskResult
unfolding ask_request parse_ask_body extract_message
ask_manual_question input status_text res = elim (ask_request input) [
  | none ↦ no_scope
  | some sent ↦ ask_answer status_text res
]

-- the DMC of a catalog code, which may lack one
pub record CatalogCode : Type 0 where
  pub code : String
  pub text : String
  pub component : String
  pub severity : String
  pub dmc : Option String

abbrev pub named_dmc : Option String → List String
named_dmc none = []
named_dmc (some d) = if d == "" then [] else d ∷ []

unfoldable pub code_dmcs : List CatalogCode → List String
code_dmcs [] = []
code_dmcs (c ∷ cs) = named_dmc c.dmc ++ code_dmcs cs

unfoldable pub manual_qa_scope : List CatalogCode → Option String → List String
unfolding code_dmcs
manual_qa_scope codes bit_entry_dmc =
    sort_by text_le (distinct (code_dmcs codes ++ named_dmc bit_entry_dmc))

unfoldable pub citations_in_scope : List Citation → List String → Bool
citations_in_scope [] scope = false
citations_in_scope (c ∷ cs) scope = all (λ (d : Citation). holds_text d.dmc scope) (c ∷ cs)

unfoldable pub should_render_answer : AskResult → List String → Bool
unfolding citations_in_scope
should_render_answer (answer_given answer citations) scope = citations_in_scope citations scope
should_render_answer _ scope = false

abbrev pub cortex_ask_max_chars : ℕ
cortex_ask_max_chars = 4000

-- `encode` stands for `encodeURIComponent`
unfoldable pub cortex_ask_url : (String → String) → String → String → Option String → Option String
cortex_ask_url encode base_url question idp =
    let words = trim question in
    let url = base_url ⧺ "/ask?q=" ⧺ encode words in
    if words == "" || not (leb (length (utf16 words)) cortex_ask_max_chars)
    then none
    else if truthy idp
    then some (url ⧺ "&idp=" ⧺ encode (or_else idp ""))
    else some url

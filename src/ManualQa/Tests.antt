-- ===== src/ManualQa/Tests.antt =====
-- Answers of the manual to concrete questions.
use openddil_demo.Base.{String, ◌≡◌, refl, true, false, Option, none, some, List, [], ◌∷◌, ◌↔◌}
use openddil_demo.Json.{
  lookup, Value, Fetched, answered, text, array, object, entry, done, element, stop,
}
use openddil_demo.ManualQa.{
  AskManualQuestionInput, CatalogCode, ask_manual_question, should_render_answer,
}
use openddil_demo.ManualQa.Gate.{IsCited, ask_manual_question_gate}

abbrev question : AskManualQuestionInput
question = record { asset_id = "truck"; question = "How is the pump removed?"; dmcs = "DMC-1" ∷ [] }

abbrev cites : String → Value
cites dmc = object (entry "dmc" (text dmc) done)

abbrev reply : Value → Fetched
reply citation = answered 200 (
    some (
      object (
        entry "status" (text "answered") (
          entry "answer" (text "Drain it first.")
            (entry "citations" (array (element citation stop)) done)))))

ask_manual_question_gate_example :
    (should_render_answer (ask_manual_question question "OK" (reply (cites "DMC-1"))) ("DMC-1" ∷ [])
      ≡ true)
    ↔ IsCited question (reply (cites "DMC-1"))
ask_manual_question_gate_example = ask_manual_question_gate question "OK" (reply (cites "DMC-1"))

shown_reply :
    should_render_answer (ask_manual_question question "OK" (reply (cites "DMC-1"))) ("DMC-1" ∷ [])
    ≡ true
unfolding ask_manual_question should_render_answer lookup
shown_reply = refl

foreign_reply :
    should_render_answer (ask_manual_question question "OK" (reply (cites "DMC-2"))) ("DMC-1" ∷ [])
    ≡ false
unfolding ask_manual_question should_render_answer lookup
foreign_reply = refl

abbrev coded : Option String → CatalogCode
coded dmc = record {
  code = "F-1";
  text = "leak";
  component = "pump";
  severity = "minor";
  dmc = dmc;
}

abbrev catalog : List CatalogCode
catalog = coded (some "DMC-1") ∷ coded none ∷ coded (some "DMC-1") ∷ []

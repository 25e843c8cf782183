-- ===== src/CmReport/Form.antt =====
-- What the form sends, and the choices that it offers.
use openddil_demo.Base.{
  String, ◌≡◌, refl, Bool, true, false, ◌&&◌, not, Option, none, some, List, [], ◌∷◌, arith, any,
  any-append, ap, ◌∙◌, ◌==◌, eqb, eqb→eq, leb, length, trim, ◌↔◌, Bool-cases, inl, inr, sym,
}
use openddil_demo.Base.Sort.{
  any-sort_by, distinct, distinct-IsDistinct, holds-distinct, holds_text, IsDistinct,
  sort_by-IsDistinct, text_le, utf16,
}
use openddil_demo.Json.{Value, array, Elements, items, Fetched, failed, answered}
use openddil_demo.CmReport.{
  ReportInput, sent, sent_of, thrown, posted, build_report_body, submit_report, event_of, slot_of,
  slots_of, component_options, max_description_length,
}

-- a description that the form accepts
abbrev pub is_fit : String → Bool
is_fit description =
    not (trim description == "") && leb (length (utf16 (trim description))) max_description_length

build-fit :
    (input : ReportInput)
    → is_fit input.description ≡ true
    → build_report_body input ≡ some (record input { description = trim input.description })
unfolding build_report_body
build-fit input h = ground arith

build-unfit :
    (input : ReportInput) → is_fit input.description ≡ false → build_report_body input ≡ none
unfolding build_report_body
build-unfit input h = ground arith

submit-fit :
    (input : ReportInput) (status_text : String) (res : Fetched)
    → is_fit input.description ≡ true
    → submit_report input status_text res ≡ posted status_text res
unfolding submit_report
submit-fit input status_text res h = rw (build-fit input h, submit_report) refl

submit-unfit :
    (input : ReportInput) (status_text : String) (res : Fetched)
    → is_fit input.description ≡ false
    → submit_report input status_text res ≡ thrown
unfolding submit_report
submit-unfit input status_text res h = rw (build-unfit input h, submit_report) refl

sent_of-sent : (o : Option Value) (event : Value) → sent_of o ≡ sent event → o ≡ some event
sent_of-sent none event h = absurd (ground arith)
sent_of-sent (some id) event h = ground arith

posted-sent :
    (status_text : String) (res : Fetched) (event : Value)
    → posted status_text res ≡ sent event
    → (reply : Option Value) × (res ≡ answered 202 reply) × (event_of reply ≡ some event)
posted-sent status_text failed event h = absurd (ground arith)
posted-sent status_text (answered status reply) event h = elim (Bool-cases (eqb status 202)) [
  | inl e ↦ (
    reply,
    ap (λ n. answered n reply) (eqb→eq status 202 e),
    sent_of-sent (event_of reply) event (ground arith),
  )
  | inr e ↦ absurd (ground arith)
]

-- A report is taken as sent, with the event of the reply, exactly if its trimmed description is not
-- empty and has at most 500 units, and the server answered 202.
pub submit_report-sent :
    (input : ReportInput) (status_text : String) (res : Fetched) (event : Value)
    → (submit_report input status_text res ≡ sent event) ↔ (
        (reply : Option Value) × (is_fit input.description ≡ true)
        × (res ≡ answered 202 reply)
        × (event_of reply ≡ some event))
submit_report-sent input status_text res event = elim (Bool-cases (is_fit input.description)) [
  | inl e ↦ (
    λ h.
        let (reply, got, same) =
          posted-sent status_text res event (sym (submit-fit input status_text res e) ∙ h) in
        (reply, e, got, same),
    λ (reply, fit, got, same).
        submit-fit input status_text res e ∙ (ap (posted status_text) got ∙ ap sent_of same),
  )
  | inr e ↦ (
    λ h. absurd (ground (arith, submit-unfit input status_text res e)),
    λ (reply, fit, got, same). absurd (ground arith),
  )
]

-- the slot of a part is the one asked for
abbrev pub is_slot : String → Value → Bool
is_slot k item = holds_text k (slot_of item)

holds-slots_of : (k : String) (is : List Value) → holds_text k (slots_of is) ≡ any (is_slot k) is
unfolding slots_of
holds-slots_of k [] = refl
holds-slots_of k (i ∷ is) =
    ground
      (arith, any-append (λ (j : String). j == k) (slot_of i) (slots_of is), holds-slots_of k is)

-- The components offered for a list of installed parts are distinct, and are exactly the slots, none
-- of them empty, of those parts that name one.
pub component_options_lem :
    (parts : Elements) (k : String)
    → IsDistinct (component_options (some (array parts)))
      × (holds_text k (component_options (some (array parts))) ≡ any (is_slot k) (items parts))
unfolding component_options
component_options_lem parts k =
    let slots = slots_of (items parts) in
    (
      sort_by-IsDistinct text_le (distinct slots) (distinct-IsDistinct slots),
      any-sort_by text_le (λ (j : String). j == k) (distinct slots)
          ∙ (holds-distinct k slots ∙ holds-slots_of k (items parts)),
    )

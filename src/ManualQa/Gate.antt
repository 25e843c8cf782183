-- ===== src/ManualQa/Gate.antt =====
-- What the gate lets through.
use openddil_demo.Base.{
  ℕ, String, ◌≡◌, refl, true, Option, none, some, List, [], ◌∷◌, arith, All, all, Bool-cases,
  Option-cases, inl, inr, ap, ◌∙◌, subst, sym, ◌↔◌, List-cases, ◌≢◌,
}
use openddil_demo.Base.Sort.{holds_text}
use openddil_demo.Json.{Value, Fetched, failed, answered, member, as_text, as_list, is_ok}
use openddil_demo.ManualQa.{
  Citation, AskManualQuestionInput, is_citation, citation, citations_of, is_status, parse_ask_body,
  ask_request, ask_answer, ask_manual_question, citations_in_scope, should_render_answer, answer_of,
  all_citations,
}

-- the answer was sent for, came with a success, and has a text and citations, all inside the scope
pub record IsCited (input : AskManualQuestionInput) (res : Fetched) : Type 0 where
  pub status : ℕ
  pub body : Value
  pub answer : String
  pub first : Value
  pub rest : List Value
  pub got : res ≡ answered status (some body)
  pub fine : is_ok status ≡ true
  pub said : is_status "answered" body ≡ true
  pub worded : as_text (member "answer" body) ≡ some answer
  pub cited : as_list (member "citations" body) ≡ some (first ∷ rest)
  pub inside :
      All
        (λ v. (is_citation v ≡ true) × (holds_text (citation v).dmc input.dmcs ≡ true))
        (first ∷ rest)

citations_of-All :
    (scope : List String) (vs : List Value) (cs : List Citation)
    → citations_of vs ≡ some cs
    → all (λ (d : Citation). holds_text d.dmc scope) cs ≡ true
    → All (λ v. (is_citation v ≡ true) × (holds_text (citation v).dmc scope ≡ true)) vs
unfolding citations_of
citations_of-All scope [] cs e h = tt
citations_of-All scope (v ∷ vs) cs e h = elim (Bool-cases (is_citation v)) [
  | inl u ↦ elim (Option-cases (citations_of vs)) [
    | inl k ↦ absurd (ground arith)
    | inr (ds, k) ↦
        let same : citation v ∷ ds ≡ cs = ground arith in
        let inside : all (λ (d : Citation). holds_text d.dmc scope) (citation v ∷ ds) ≡ true =
          ap (all (λ (d : Citation). holds_text d.dmc scope)) same ∙ h in
        ((u, ground arith), citations_of-All scope vs ds k (ground arith))
  ]
  | inr u ↦ absurd (ground arith)
]

module _ (scope : List String) where
  -- citations that are all in scope
  abbrev AreInside : List Citation → Type 0
  AreInside cs = (cs ≢ []) × (all (λ (d : Citation). holds_text d.dmc scope) cs ≡ true)

  rendered_parts :
      (status : ℕ) (a : Option String) (cs : Option (List Citation))
      → should_render_answer (answer_of status a cs) scope ≡ true
      → (answer : String) × (ds : List Citation) × (a ≡ some answer) × (cs ≡ some ds) × AreInside ds
  unfolding should_render_answer citations_in_scope
  rendered_parts status none cs h = absurd (ground arith)
  rendered_parts status (some a) none h = absurd (ground arith)
  rendered_parts status (some a) (some []) h = absurd (ground arith)
  rendered_parts status (some a) (some (c ∷ cs)) h =
      (a, c ∷ cs, refl, refl, (λ e. absurd (ground arith), h))

  listed_parts :
      (l : Option (List Value)) (ds : List Citation)
      → all_citations l ≡ some ds
      → AreInside ds
      → (first : Value) × (rest : List Value) × (l ≡ some (first ∷ rest))
        × All
            (λ v. (is_citation v ≡ true) × (holds_text (citation v).dmc scope ≡ true))
            (first ∷ rest)
  unfolding citations_of
  listed_parts none ds e i = absurd (ground arith)
  listed_parts (some []) ds e (n, i) = absurd (n (ground arith))
  listed_parts (some (v ∷ vs)) ds e (n, i) = (v, vs, refl, citations_of-All scope (v ∷ vs) ds e i)

-- the citations that a well-formed answer carries are those of its body
parsed :
    (input : AskManualQuestionInput) (status : ℕ) (body : Value)
    → is_ok status ≡ true
    → should_render_answer (parse_ask_body body status) input.dmcs ≡ true
    → IsCited input (answered status (some body))
unfolding parse_ask_body should_render_answer
parsed input status body fine h = elim (Bool-cases (is_status "answered" body)) [
  | inl e ↦
      let (answer, ds, worded, cs, i) =
        rendered_parts input.dmcs status (as_text (member "answer" body))
          (all_citations (as_list (member "citations" body))) (ground arith) in
      let (first, rest, cited, inside) =
        listed_parts input.dmcs (as_list (member "citations" body)) ds cs i in
      record {
        status = status;
        body = body;
        answer = answer;
        first = first;
        rest = rest;
        got = refl;
        fine = fine;
        said = e;
        worded = worded;
        cited = cited;
        inside = inside;
      }
  | inr e ↦ absurd (ground arith)
]

-- an answer that is not a success is not rendered
answered_parts :
    (status_text : String) (res : Fetched) (scope : List String)
    → should_render_answer (ask_answer status_text res) scope ≡ true
    → (status : ℕ) × (body : Value) × (res ≡ answered status (some body))
      × (is_ok status ≡ true)
      × (should_render_answer (parse_ask_body body status) scope ≡ true)
unfolding should_render_answer
answered_parts status_text failed scope h = absurd (ground arith)
answered_parts status_text (answered status none) scope h = absurd (ground arith)
answered_parts status_text (answered status (some body)) scope h =
    (status, body, refl, ground arith, ground arith)

asked :
    (input : AskManualQuestionInput) (status_text : String) (res : Fetched)
    → should_render_answer (ask_manual_question input status_text res) input.dmcs ≡ true
    → IsCited input res
unfolding ask_manual_question should_render_answer
asked input status_text res h = elim (Option-cases (ask_request input)) [
  | inl e ↦ absurd (ground arith)
  | inr (sent, e) ↦
      let (status, body, got, fine, shown) =
        answered_parts status_text res input.dmcs (ground arith) in
      subst (IsCited input) (sym got) (parsed input status body fine shown)
]

module _ (scope : List String) where
  citations_of-some :
      (vs : List Value)
      → All (λ v. (is_citation v ≡ true) × (holds_text (citation v).dmc scope ≡ true)) vs
      → (cs : List Citation) × (citations_of vs ≡ some cs)
        × (all (λ (d : Citation). holds_text d.dmc scope) cs ≡ true)
  unfolding citations_of
  citations_of-some [] h = ([], refl, refl)
  citations_of-some (v ∷ vs) ((u, i), h) =
      let (cs, e, k) = citations_of-some vs h in (citation v ∷ cs, rw (u, e) refl, ground arith)

  rendered :
      (status : ℕ) (answer : String) (first : Value) (rest : List Value)
      → All
          (λ v. (is_citation v ≡ true) × (holds_text (citation v).dmc scope ≡ true))
          (first ∷ rest)
      → should_render_answer
          (answer_of status (some answer) (all_citations (some (first ∷ rest))))
          scope
        ≡ true
  unfolding citations_of should_render_answer citations_in_scope
  rendered status answer first rest ((u, i), h) =
      let (cs, e, k) = citations_of-some rest h in rw (u, e) (ground arith)

asked_scope :
    (input : AskManualQuestionInput) (k : String)
    → holds_text k input.dmcs ≡ true
    → ask_request input ≡ some input
unfolding ask_request
asked_scope input k h = elim (List-cases input.dmcs) [
  | inl e ↦ absurd (ground arith)
  | inr (d, ds, e) ↦ rw e refl
]

sent :
    (input before : AskManualQuestionInput) (status_text : String) (res : Fetched)
    → ask_request input ≡ some before
    → ask_manual_question input status_text res ≡ ask_answer status_text res
unfolding ask_manual_question
sent input before status_text res e = rw (e, ask_manual_question) refl

read :
    (status : ℕ) (status_text : String) (body : Value)
    → is_ok status ≡ true
    → ask_answer status_text (answered status (some body)) ≡ parse_ask_body body status
read status status_text body fine = ground arith

show :
    (input : AskManualQuestionInput) (status_text : String) (res : Fetched)
    → IsCited input res
    → should_render_answer (ask_manual_question input status_text res) input.dmcs ≡ true
unfolding parse_ask_body
show input status_text res c =
    let shown = rendered input.dmcs c.status c.answer c.first c.rest c.inside in
    let ((_, i), _) = c.inside in
    let to_answer = sent input input status_text res (asked_scope input (citation c.first).dmc i) in
    let to_body = ap (ask_answer status_text) c.got ∙ read c.status status_text c.body c.fine in
    rw (to_answer ∙ to_body) (rw (c.said, c.worded, c.cited, parse_ask_body) shown)

-- What is rendered of a question, for the scope that it was asked in, is exactly an answer whose
-- reply was a success that says `answered`, with a text and at least one citation, and with every
-- citation well-formed and inside the scope.
pub ask_manual_question_gate :
    (input : AskManualQuestionInput) (status_text : String) (res : Fetched)
    → (should_render_answer (ask_manual_question input status_text res) input.dmcs ≡ true)
      ↔ IsCited input res
ask_manual_question_gate input status_text res =
    (asked input status_text res, show input status_text res)

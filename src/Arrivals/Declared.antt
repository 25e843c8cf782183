-- ===== src/Arrivals/Declared.antt =====
-- How a declaration ends, and when a listing is taken.
use openddil_demo.Base.{
  ℕ, String, ◌≡◌, refl, Bool, true, false, ◌||◌, ◌&&◌, Option, none, some, arith, eqb, ◌↔◌,
  Bool-cases, inl, inr,
}
use openddil_demo.Json.{Value, Fetched, failed, answered, member, is_ok}
use openddil_demo.Arrivals.{
  loaded, is_listing, load_arrivals, SubmitDeclarationResult, recorded, refused, failed_call,
  submit_declaration, body_member, is_true,
}

abbrev pub is_recorded : SubmitDeclarationResult → Bool
is_recorded (recorded r b w) = true
is_recorded (refused status reason) = false
is_recorded (failed_call message) = false

abbrev pub has_baseline : SubmitDeclarationResult → Bool
has_baseline (recorded r b w) = b
has_baseline (refused status reason) = false
has_baseline (failed_call message) = false

abbrev pub has_warning : SubmitDeclarationResult → Bool
has_warning (recorded r b w) = elim w [ none ↦ false | some text ↦ true ]
has_warning (refused status reason) = false
has_warning (failed_call message) = false

-- A declaration that is answered counts as recorded exactly after a 201, or a 502 whose body says
-- that it was declared; it has its baseline exactly after a 201 that says so, and warns exactly in
-- the other of the two.
pub submit_declaration_outcome :
    (failure status_text : String) (status : ℕ) (body : Option Value)
    → (is_recorded (submit_declaration failure status_text (answered status body))
        ≡ (eqb status 201 || (eqb status 502 && is_true (body_member "declared" body))))
      × (has_baseline (submit_declaration failure status_text (answered status body))
          ≡ (eqb status 201 && is_true (body_member "baseline_assigned" body)))
      × (has_warning (submit_declaration failure status_text (answered status body))
          ≡ (eqb status 502 && is_true (body_member "declared" body)))
unfolding submit_declaration
submit_declaration_outcome failure status_text status body = elim (Bool-cases (eqb status 201)) [
  | inl e ↦ (ground arith, ground arith, ground arith)
  | inr e ↦ elim (Bool-cases (eqb status 502 && is_true (body_member "declared" body))) [
    | inl k ↦ (rw (e, k) refl, rw (e, k) refl, rw (e, k) refl)
    | inr k ↦ (rw (e, k) refl, rw (e, k) refl, rw (e, k) refl)
  ]
]

-- A listing is taken exactly from a success whose body has both lists, and is then that body.
pub load_arrivals-loaded :
    (failure : String) (res : Fetched) (b : Value)
    → (load_arrivals failure res ≡ loaded b) ↔ (
        (status : ℕ) × (res ≡ answered status (some b))
        × (is_ok status ≡ true)
        × (is_listing (member "undeclared" b) ≡ true)
        × (is_listing (member "expected" b) ≡ true))
unfolding load_arrivals
load_arrivals-loaded failure failed b =
    (λ h. absurd (ground arith), λ (s, e, k, u, x). absurd (ground arith))
load_arrivals-loaded failure (answered status none) b =
    (λ h. absurd (ground arith), λ (s, e, k, u, x). absurd (ground arith))
load_arrivals-loaded failure (answered status (some c)) b = (
  λ h. (status, ground arith, ground arith, ground arith, ground arith),
  λ (s, e, k, u, x). ground arith,
)

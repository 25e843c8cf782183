-- ===== src/Arrivals/Tests.antt =====
-- Declarations on concrete answers.
use openddil_demo.Base.{◌≡◌, true, some, ◌||◌, ◌&&◌, Option, eqb}
use openddil_demo.Json.{
  Value, answered, text, bool, array, object, entry, done, element, stop, null,
}
use openddil_demo.Arrivals.{submit_declaration, body_member, is_true}
use openddil_demo.Arrivals.Declared.{
  is_recorded, has_baseline, has_warning, submit_declaration_outcome,
}

-- a declaration that was recorded without its baseline
abbrev half_done : Option Value
half_done =
    some (object (entry "declared" (bool true) (entry "cause" (text "no such baseline") done)))

submit_declaration_outcome_example :
    (is_recorded (submit_declaration "" "Bad Gateway" (answered 502 half_done))
      ≡ (eqb 502 201 || (eqb 502 502 && is_true (body_member "declared" half_done))))
    × (has_baseline (submit_declaration "" "Bad Gateway" (answered 502 half_done))
        ≡ (eqb 502 201 && is_true (body_member "baseline_assigned" half_done)))
    × (has_warning (submit_declaration "" "Bad Gateway" (answered 502 half_done))
        ≡ (eqb 502 502 && is_true (body_member "declared" half_done)))
submit_declaration_outcome_example = submit_declaration_outcome "" "Bad Gateway" 502 half_done

abbrev page : Value
page = object (entry "undeclared" (array (element null stop)) (entry "expected" (array stop) done))

-- ===== src/Exercise/Tests.antt =====
-- Runs of the exercise controller.
use openddil_demo.Base.{ℕ, ◌≢◌, ◌≡◌, refl, true, false, none, some, List, [], ◌∷◌, inl, ◌↔◌}
use openddil_demo.Json.{
  Value, num, bool, array, object, stop, entry, done, whole, Fetched, answered, lookup,
}
use openddil_demo.Exercise.{
  ok, forbidden, absent, ExerciseControlState, initial, polled, Refused, refused_with, forwarded,
  op_head, Event, poll, head, body, step, run,
}
use openddil_demo.Exercise.Types.{ExerciseStatusBody, ExerciseActivityState, ExerciseLastCommand}
use openddil_demo.Exercise.Invariant.{IsConsistent, run-IsConsistent, initial-IsConsistent}
use openddil_demo.Exercise.Observed.{Shows, last_polled, run-Shows}
use openddil_demo.Exercise.Refusals.{IsDenial, op_forbidden_iff}
use openddil_demo.Exercise.Preflight.{
  loading, literally_true, reset_confirm_body, reset_preflight, ShowsCount, reset_confirm_body_iff,
}

abbrev sample : ExerciseStatusBody
sample = record {
  adapter = record { name = "sim"; ops = "start" ∷ "pause" ∷ [] };
  last_command = none;
  activity = record {
    state = ExerciseActivityState.running;
    label = "running";
    window_s = whole 10;
    min_rate = whole 1;
    sources = [];
  };
  reset = record { measured_zero_at = none; verdict = none };
  reset_job = none;
  sequences = none;
  sequence = none;
  loop = none;
}

abbrev pause : ExerciseLastCommand
pause = record {
  op = "pause";
  at = "t0";
  status = some 200;
  error = none;
  subject = "op";
  steps = none;
  via = none;
  job = none;
  sequence = none;
}

abbrev refused : Refused
refused = record { reason = none; error = some "forbidden"; refused = none }

abbrev shown : ExerciseControlState
shown = record { kind = ok; status = some sample; stale = false; refusal = none }

abbrev script : List Event
script =
    poll (polled 200 (some sample))
    ∷ head "pause" (some 200)
    ∷ body "pause" forwarded (some pause)
    ∷ head "reset" (some 403)
    ∷ body "reset" (refused_with 403) (some refused)
    ∷ poll (polled 503 none)
    ∷ []

script_end : run script initial ≡ record {
  kind = ok;
  status = some (record sample { last_command = some pause });
  stale = true;
  refusal = some "forbidden";
}
unfolding run step
script_end = refl

run-IsConsistent_example : IsConsistent (run script initial)
run-IsConsistent_example = run-IsConsistent script initial initial-IsConsistent

run-Shows_example : Shows (last_polled script none) (run script initial)
run-Shows_example = run-Shows script none initial (inl refl)

op_forbidden_iff_example :
    (((op_head "pause" (some 403) shown).0.kind ≡ forbidden) ↔ IsDenial "pause" 403 shown)
    × (((op_head "pause" (some 403) shown).0.kind ≡ absent) ↔ (◌≡◌ {A = ℕ} 403 404))
    × (((op_head "pause" (some 403) shown).0 ≡ shown)
        ↔ ((¬ IsDenial "pause" 403 shown) × (◌≢◌ {A = ℕ} 403 404)))
op_forbidden_iff_example = op_forbidden_iff "pause" 403 shown (λ e. cc e) (λ e. cc e)

abbrev over_limit : Fetched
over_limit = answered 200 (
    some (
      object (
        entry "limit" (num (whole 5)) (
          entry "runtimes" (array stop)
            (entry "needs_confirmation" (bool true) (entry "open_over" (num (whole 7)) done))))))

confirm_seven :
    reset_confirm_body (some (reset_preflight over_limit))
    ≡ some (record { confirm_cancel_open = literally_true; seen_open = num (whole 7) })
unfolding reset_confirm_body reset_preflight lookup
confirm_seven = refl

reset_confirm_body_iff_example :
    (reset_confirm_body none ≡ none)
    × (reset_confirm_body (some loading) ≡ none)
    × ((reset_confirm_body (some (reset_preflight over_limit))
          ≡ some (record { confirm_cancel_open = literally_true; seen_open = num (whole 7) }))
        ↔ ShowsCount over_limit (num (whole 7)))
    × ((reset_confirm_body (some (reset_preflight over_limit)) ≡ none)
        ↔ ¬ ((shown : Value) × ShowsCount over_limit shown))
reset_confirm_body_iff_example = reset_confirm_body_iff over_limit (num (whole 7))

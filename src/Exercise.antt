-- ===== src/Exercise.antt =====
-- frontend/src/lib/exerciseControl.ts: the exercise popup's commanded and observed state. Bodies are
-- taken at the type that the source casts them to; `none` is a body that cannot be read.
pub mod Types
pub mod Preflight
pub mod Observed
pub mod Invariant
pub mod Refusals
mod Tests
use openddil_demo.Base.{
  ℕ, String, Bool, true, false, ◌||◌, ◌&&◌, not, Option, none, some, List, [], ◌∷◌, ◌==◌, any, eqb,
  if◌then◌else◌, or_else, truthy,
}
use openddil_demo.Json.{is_ok}
use openddil_demo.Exercise.Types.{
  ExerciseStatusBody, ExerciseLastCommand, ExerciseSequence, ExerciseSequenceRun,
}

pub data ControlKind : Type 0 where
  absent forbidden ok loading : ControlKind

pub record ExerciseControlState : Type 0 where
  pub kind : ControlKind
  pub status : Option ExerciseStatusBody
  pub stale : Bool
  pub refusal : Option String

abbrev pub initial : ExerciseControlState
initial = record { kind = loading; status = none; stale = false; refusal = none }

-- An empty refusal is dropped.
unfoldable pub set_state : ExerciseControlState → ExerciseControlState
set_state next = record next { refusal = if truthy next.refusal then next.refusal else none }

abbrev pub gone : ExerciseControlState
gone = record { kind = absent; status = none; stale = false; refusal = none }

abbrev pub mark_stale : ExerciseControlState → ExerciseControlState
mark_stale s = record s { stale = true }

-- how one GET of the status ends
pub data PollAnswer : Type 0 where
  poll_failed : PollAnswer
  polled : ℕ → Option ExerciseStatusBody → PollAnswer

unfoldable pub poll_done : PollAnswer → ExerciseControlState → ExerciseControlState
unfolding set_state
poll_done poll_failed s = set_state (mark_stale s)
poll_done (polled code body) s =
    if eqb code 404
    then set_state gone
    else if eqb code 401 || eqb code 403
    then set_state (record { kind = forbidden; status = none; stale = false; refusal = none })
    else if not (is_ok code)
    then set_state (mark_stale s)
    else elim body [
      | none ↦ set_state (mark_stale s)
      | some b ↦
          set_state (record { kind = ok; status = some b; stale = false; refusal = s.refusal })
    ]

-- `{ reason?, error?, refused? }`
pub record Refused : Type 0 where
  pub reason : Option String
  pub error : Option String
  pub refused : Option String

-- What `runOp` is waiting for when it reads the body of an answer.
pub data Wait : Type 0 where
  refused_with : ℕ → Wait
  sequence_started accepted forwarded : Wait

abbrev pub BodyOf : Wait → Type 0
BodyOf (refused_with code) = Refused
BodyOf sequence_started = ExerciseSequenceRun
BodyOf accepted = ExerciseLastCommand
BodyOf forwarded = ExerciseLastCommand

abbrev pub sequences_of : Option ExerciseStatusBody → List ExerciseSequence
sequences_of none = []
sequences_of (some b) = or_else b.sequences []

unfoldable pub is_sequence : String → ExerciseControlState → Bool
is_sequence op s = any (λ (q : ExerciseSequence). q.name == op) (sequences_of s.status)

-- a 403 on these is a refusal, on any other op a loss of access
unfoldable pub is_refusable : String → ExerciseControlState → Bool
unfolding is_sequence
is_refusable op s = op == "reset" || op == "loop" || op == "loopstop" || is_sequence op s

-- The piece of `runOp` up to the answer's status, `none` if the call throws: the new state, and
-- the body to wait for.
unfoldable pub op_head :
    String → Option ℕ → ExerciseControlState → ExerciseControlState × Option Wait
unfolding is_refusable set_state
op_head op none s = (set_state (mark_stale s), none)
op_head op (some code) s =
    if is_refusable op s && eqb code 403
    then (s, some (refused_with 403))
    else if eqb code 401 || eqb code 403
    then (
      set_state (record { kind = forbidden; status = s.status; stale = s.stale; refusal = none }),
      none,
    )
    else if eqb code 404
    then (set_state gone, none)
    else if eqb code 409 || eqb code 502
    then (s, some (refused_with code))
    else if eqb code 202 && is_sequence op s
    then (s, some sequence_started)
    else if eqb code 202 && (op == "loop" || op == "loopstop")
    then (s, none)
    else if eqb code 202
    then (s, some accepted)
    else (s, some forwarded)

abbrev pub with_status : Option ExerciseStatusBody → ExerciseControlState → ExerciseControlState
with_status status s = record { kind = ok; status = status; stale = s.stale; refusal = none }

abbrev pub command_of : String → ExerciseSequenceRun → ExerciseLastCommand
command_of op run = record {
  op = op;
  at = run.started_at;
  status = some 202;
  error = none;
  subject = run.subject;
  steps = none;
  via = none;
  job = none;
  sequence = some true;
}

abbrev pub refused_text : ℕ → String
refused_text code = if eqb code 409 then "refused (409)" else "refused (502)"

-- the 403 body has no `refused` key
abbrev pub reason_of : ℕ → Refused → String
reason_of code r =
    if eqb code 403
    then or_else r.reason (or_else r.error "refused (403)")
    else or_else r.reason (or_else r.error (or_else r.refused (refused_text code)))

-- a status that is there takes the new command and shows the controls again
abbrev pub commanded :
    (ExerciseStatusBody → ExerciseStatusBody) → ExerciseControlState → ExerciseControlState
commanded f s = elim s.status [ none ↦ s | some b ↦ set_state (with_status (some (f b)) s) ]

-- The piece of `runOp` after the body, on the state of that time.
unfoldable pub op_body :
    String → (w : Wait) → Option (BodyOf w) → ExerciseControlState → ExerciseControlState
unfolding set_state
op_body op w none s = set_state (mark_stale s)
op_body op (refused_with code) (some r) s =
    set_state (record s { refusal = some (reason_of code r) })
op_body op sequence_started (some run) s =
    commanded (λ b. record b { sequence = some run; last_command = some (command_of op run) }) s
op_body op accepted (some c) s =
    commanded (λ b. record b { last_command = some (record c { status = some 202; error = none }) })
      s
op_body op forwarded (some c) s = commanded (λ b. record b { last_command = some c }) s

-- what can happen to the controller, in any order
pub data Event : Type 0 where
  poll : PollAnswer → Event
  head : String → Option ℕ → Event
  body : String → (w : Wait) → Option (BodyOf w) → Event

unfoldable pub step : Event → ExerciseControlState → ExerciseControlState
unfolding poll_done op_head op_body
step (poll a) s = poll_done a s
step (head op code) s = (op_head op code s).0
step (body op w b) s = op_body op w b s

unfoldable pub run : List Event → ExerciseControlState → ExerciseControlState
run [] s = s
run (e ∷ es) s = run es (step e s)

-- ===== src/Exercise/Types.antt =====
-- The bodies that frontend/src/lib/exerciseControl.ts declares, field by field. A field marked `?`
-- there, or that may be null, is an `Option`.
use openddil_demo.Base.{ℕ, String, Bool, Option, List}
use openddil_demo.Json.{Decimal}

pub data ExerciseActivityState : Type 0 where
  running paused unknown : ExerciseActivityState

pub record ExerciseSourceStatus : Type 0 where
  pub url : String
  pub reachable : Bool
  pub rate : Option Decimal

pub record ExerciseActivity : Type 0 where
  pub state : ExerciseActivityState
  pub label : String
  pub window_s : Decimal
  pub min_rate : Decimal
  pub sources : List ExerciseSourceStatus

pub record CommandStep : Type 0 where
  pub method : String
  pub path : String
  pub status : Option ℕ
  pub error : Option String

pub record ExerciseLastCommand : Type 0 where
  pub op : String
  pub at : String
  pub status : Option ℕ
  pub error : Option String
  pub subject : String
  pub steps : Option (List CommandStep)
  pub via : Option String
  pub job : Option String
  pub sequence : Option Bool

pub record ExerciseSequence : Type 0 where
  pub name : String
  pub label : String
  pub description : Option String
  pub steps : ℕ
  pub total_wait_s : Decimal
  pub may_press : Option Bool

pub data StepKind : Type 0 where
  call wait : StepKind

pub data StepState : Type 0 where
  pending running ok failed skipped : StepState

pub record ExerciseSequenceStep : Type 0 where
  pub i : ℕ
  pub kind : StepKind
  pub name : Option String
  pub method : Option String
  pub url : Option String
  pub wait_s : Option Decimal
  pub state : StepState
  pub status : Option ℕ
  pub error : Option String
  pub at : Option String
  pub done_at : Option String

pub data RunState : Type 0 where
  running completed halted : RunState

pub record ExerciseSequenceRun : Type 0 where
  pub op : String
  pub label : String
  pub subject : String
  pub started_at : String
  pub finished_at : Option String
  pub state : RunState
  pub steps : List ExerciseSequenceStep

pub record ExerciseAdapter : Type 0 where
  pub name : String
  pub ops : List String

pub record ExerciseReset : Type 0 where
  pub measured_zero_at : Option String
  pub verdict : Option String

pub data JobState : Type 0 where
  running succeeded failed : JobState

pub record ExerciseResetJobLatest : Type 0 where
  pub name : String
  pub state : JobState
  pub started_at : Option String
  pub finished_at : Option String
  pub requested_by : Option String

pub data ResetMode : Type 0 where
  quick full : ResetMode

pub record ExerciseResetJob : Type 0 where
  pub available : Bool
  pub latest : Option ExerciseResetJobLatest
  pub error : Option String
  pub may_press : Option Bool
  pub mode : Option ResetMode

pub record ExerciseLoopStepConfig : Type 0 where
  pub op : Option String
  pub reset : Option String
  pub wait_s : Option Decimal
  pub await : Option String

pub record ExerciseLoopAwait : Type 0 where
  pub armed : Bool
  pub fires_this_await : ℕ
  pub inflight : Option ℕ
  pub quiet_s : Decimal
  pub quiet_needed_s : Decimal
  pub fallback_s : Decimal
  pub fallback_remaining_s : Decimal
  pub unknown_sources : List String

pub data EndReason : Type 0 where
  quiet fallback : EndReason

pub data CycleOutcome : Type 0 where
  ok halted stopped : CycleOutcome

pub record CycleStep : Type 0 where
  pub step : String
  pub ok : Bool
  pub started_at : Option String
  pub s : Option Decimal
  pub detail : Option String

pub record ExerciseLoopCycle : Type 0 where
  pub event : String
  pub cycle : ℕ
  pub started_at : Option String
  pub ended_at : Option String
  pub end_reason : Option EndReason
  pub armed : Bool
  pub fires : ℕ
  pub outcome : CycleOutcome
  pub steps : List CycleStep
  pub reset_job : Option String
  pub started_by : Option String

pub record ExerciseLoopHalt : Type 0 where
  pub cycle : ℕ
  pub step_index : ℕ
  pub step : String
  pub detail : String

pub data LoopState : Type 0 where
  idle running stopping halted stopped : LoopState

pub record ExerciseLoop : Type 0 where
  pub configured : Bool
  pub state : LoopState
  pub cycle : ℕ
  pub step_index : Option ℕ
  pub step : Option String
  pub steps : List ExerciseLoopStepConfig
  pub started_at : Option String
  pub step_started_at : Option String
  pub started_by : Option String
  pub await : Option ExerciseLoopAwait
  pub last_cycle : Option ExerciseLoopCycle
  pub halt : Option ExerciseLoopHalt
  pub record_error : Option String
  pub quiet_s : Option Decimal
  pub fallback_s : Option Decimal

-- `sequence?: … | null` reads the same absent and null, so one `Option` stands for both.
pub record ExerciseStatusBody : Type 0 where
  pub adapter : ExerciseAdapter
  pub last_command : Option ExerciseLastCommand
  pub activity : ExerciseActivity
  pub reset : ExerciseReset
  pub reset_job : Option ExerciseResetJob
  pub sequences : Option (List ExerciseSequence)
  pub sequence : Option ExerciseSequenceRun
  pub loop : Option ExerciseLoop

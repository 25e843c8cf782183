-- ===== src/Exercise/Observed.antt =====
-- The rule that the file exists to enforce: what the screen says of the exercise comes from the
-- polls alone, whatever the ops and their answers do.
use openddil_demo.Base.{
  ℕ, String, ◌≡◌, refl, Bool, true, false, Option, none, some, List, [], ◌∷◌, arith, inl, ◌⊎◌,
  if◌then◌else◌,
}
use openddil_demo.Json.{is_ok}
use openddil_demo.Exercise.{
  forbidden, gone, ExerciseControlState, set_state, poll_done, PollAnswer, poll_failed, polled,
  Wait, refused_with, sequence_started, accepted, forwarded, BodyOf, op_head, op_body, Event, poll,
  head, body, step, run, with_status,
}
use openddil_demo.Exercise.Types.{
  ExerciseStatusBody, ExerciseAdapter, ExerciseActivity, ExerciseReset, ExerciseResetJob,
  ExerciseSequence, ExerciseLoop,
}

-- all of a status but the commands that were sent
pub record Observation : Type 0 where
  pub adapter : ExerciseAdapter
  pub activity : ExerciseActivity
  pub reset : ExerciseReset
  pub reset_job : Option ExerciseResetJob
  pub sequences : Option (List ExerciseSequence)
  pub loop : Option ExerciseLoop

abbrev pub observation : ExerciseStatusBody → Observation
observation b = record {
  adapter = b.adapter;
  activity = b.activity;
  reset = b.reset;
  reset_job = b.reset_job;
  sequences = b.sequences;
  loop = b.loop;
}

abbrev pub observed : Option ExerciseStatusBody → Option Observation
observed none = none
observed (some b) = some (observation b)

-- the body of the last poll that was answered with one
abbrev pub poll_body : PollAnswer → Option ExerciseStatusBody
poll_body poll_failed = none
poll_body (polled code b) = if is_ok code then b else none

abbrev pub newer : Option ExerciseStatusBody → Option ExerciseStatusBody → Option ExerciseStatusBody
newer none old = old
newer (some b) old = some b

unfoldable pub last_polled : List Event → Option ExerciseStatusBody → Option ExerciseStatusBody
last_polled [] seen = seen
last_polled (poll a ∷ es) seen = last_polled es (newer (poll_body a) seen)
last_polled (head op code ∷ es) seen = last_polled es seen
last_polled (body op w b ∷ es) seen = last_polled es seen

-- the status shows what was seen, or nothing
abbrev pub Shows : Option ExerciseStatusBody → ExerciseControlState → Type 0
Shows seen s = (s.status ≡ none) ⊎ (observed s.status ≡ observed seen)

poll_done-Shows :
    (a : PollAnswer) (seen : Option ExerciseStatusBody) (s : ExerciseControlState)
    → Shows seen s
    → Shows (newer (poll_body a) seen) (poll_done a s)
unfolding poll_done
poll_done-Shows poll_failed seen s h = h
poll_done-Shows (polled code none) seen s h = ground arith
poll_done-Shows (polled code (some b)) seen s h = ground arith

if-Shows :
    (seen : Option ExerciseStatusBody) (b : Bool) (p q : ExerciseControlState × Option Wait)
    → Shows seen p.0
    → Shows seen q.0
    → Shows seen (if b then p else q).0
if-Shows seen true p q h k = h
if-Shows seen false p q h k = k

forbidden-Shows :
    (seen : Option ExerciseStatusBody) (s : ExerciseControlState)
    → Shows seen s
    → Shows seen (
        set_state (record { kind = forbidden; status = s.status; stale = s.stale; refusal = none }))
unfolding set_state
forbidden-Shows seen s h = h

gone-Shows : (seen : Option ExerciseStatusBody) → Shows seen (set_state gone)
unfolding set_state
gone-Shows seen = inl refl

op_head-Shows :
    (op : String) (code : Option ℕ) (seen : Option ExerciseStatusBody) (s : ExerciseControlState)
    → Shows seen s
    → Shows seen (op_head op code s).0
unfolding op_head
op_head-Shows op none seen s h = h
op_head-Shows op (some code) seen s h = search (if-Shows, gone-Shows) depth 10

commanded-Shows :
    (f : ExerciseStatusBody → ExerciseStatusBody)
    (same : (b : ExerciseStatusBody) → observation (f b) ≡ observation b)
    (seen o : Option ExerciseStatusBody) (s : ExerciseControlState)
    → (o ≡ none) ⊎ (observed o ≡ observed seen)
    → Shows seen s
    → Shows seen (elim o [ none ↦ s | some b ↦ set_state (with_status (some (f b)) s) ])
unfolding set_state
commanded-Shows f same seen none s h k = k
commanded-Shows f same seen (some b) s h k = ground (arith, same b)

op_body-Shows :
    (op : String) (w : Wait) (b : Option (BodyOf w)) (seen : Option ExerciseStatusBody)
    (s : ExerciseControlState)
    → Shows seen s
    → Shows seen (op_body op w b s)
unfolding op_body
op_body-Shows op w none seen s h = h
op_body-Shows op (refused_with code) (some r) seen s h = h
op_body-Shows op sequence_started (some r) seen s h =
    commanded-Shows _ (λ b. refl) seen s.status s h h
op_body-Shows op accepted (some c) seen s h = commanded-Shows _ (λ b. refl) seen s.status s h h
op_body-Shows op forwarded (some c) seen s h = commanded-Shows _ (λ b. refl) seen s.status s h h

-- Whatever polls and ops run in whatever order, the status either shows nothing or shows, in
-- everything but the commands sent, what the last readable poll said; no answer to an op enters it.
pub run-Shows :
    (es : List Event) (seen : Option ExerciseStatusBody) (s : ExerciseControlState)
    → Shows seen s
    → Shows (last_polled es seen) (run es s)
unfolding run last_polled step
run-Shows [] seen s h = h
run-Shows (poll a ∷ es) seen s h =
    run-Shows es (newer (poll_body a) seen) (poll_done a s) (poll_done-Shows a seen s h)
run-Shows (head op code ∷ es) seen s h =
    run-Shows es seen (op_head op code s).0 (op_head-Shows op code seen s h)
run-Shows (body op w b ∷ es) seen s h =
    run-Shows es seen (op_body op w b s) (op_body-Shows op w b seen s h)

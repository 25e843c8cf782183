-- ===== src/Exercise/Invariant.antt =====
-- Which statuses go with which kind, whatever happens in whatever order.
use openddil_demo.Base.{
  ℕ, String, ◌≡◌, refl, Bool, true, false, Option, none, some, List, [], ◌∷◌, arith, truthy,
  if◌then◌else◌, ◌≢◌,
}
use openddil_demo.Exercise.{
  absent, forbidden, ok, loading, gone, ExerciseControlState, initial, set_state, mark_stale,
  poll_done, PollAnswer, poll_failed, polled, Wait, refused_with, sequence_started, accepted,
  forwarded, BodyOf, op_head, op_body, Event, poll, head, body, step, run, with_status,
}
use openddil_demo.Exercise.Types.{ExerciseStatusBody}

abbrev pub has_status : Option ExerciseStatusBody → Bool
has_status none = false
has_status (some b) = true

-- A shown popup has a status to show, one that is hidden or loading has none, and a refusal that
-- is kept is never an empty text.
pub record IsConsistent (s : ExerciseControlState) : Type 0 where
  pub shown : s.kind ≡ ok → has_status s.status ≡ true
  pub hidden : s.kind ≡ absent → has_status s.status ≡ false
  pub unread : s.kind ≡ loading → has_status s.status ≡ false
  pub said : s.refusal ≢ none → truthy s.refusal ≡ true

set_state-said :
    (s : ExerciseControlState) → (set_state s).refusal ≢ none → truthy (set_state s).refusal ≡ true
unfolding set_state
set_state-said s h = ground arith

set_state-IsConsistent :
    (s : ExerciseControlState)
    → (s.kind ≡ ok → has_status s.status ≡ true)
    → (s.kind ≡ absent → has_status s.status ≡ false)
    → (s.kind ≡ loading → has_status s.status ≡ false)
    → IsConsistent (set_state s)
unfolding set_state
set_state-IsConsistent s a b c = record {
  shown = a;
  hidden = b;
  unread = c;
  said = unfold set_state in set_state-said s;
}

-- the states that the handlers build
stale-IsConsistent :
    (s : ExerciseControlState) → IsConsistent s → IsConsistent (set_state (mark_stale s))
stale-IsConsistent s h = set_state-IsConsistent (mark_stale s) h.shown h.hidden h.unread

gone-IsConsistent : IsConsistent (set_state gone)
gone-IsConsistent = set_state-IsConsistent gone (λ e. cc) (λ e. refl) (λ e. refl)

forbidden-IsConsistent :
    (status : Option ExerciseStatusBody) (b : Bool)
    → IsConsistent
        (set_state (record { kind = forbidden; status = status; stale = b; refusal = none }))
forbidden-IsConsistent status b =
    set_state-IsConsistent (record { kind = forbidden; status = status; stale = b; refusal = none })
      (λ e. cc) (λ e. cc) (λ e. cc)

shown-IsConsistent :
    (b : ExerciseStatusBody) (stale : Bool) (r : Option String)
    → IsConsistent (set_state (record { kind = ok; status = some b; stale = stale; refusal = r }))
shown-IsConsistent b stale r =
    set_state-IsConsistent (record { kind = ok; status = some b; stale = stale; refusal = r })
      (λ e. refl) (λ e. cc) (λ e. cc)

refusal-IsConsistent :
    (r : Option String) (s : ExerciseControlState)
    → IsConsistent s
    → IsConsistent (set_state (record s { refusal = r }))
refusal-IsConsistent r s h =
    set_state-IsConsistent (record s { refusal = r }) h.shown h.hidden h.unread

if-IsConsistent :
    (b : Bool) (s t : ExerciseControlState)
    → IsConsistent s
    → IsConsistent t
    → IsConsistent (if b then s else t)
if-IsConsistent true s t h k = h
if-IsConsistent false s t h k = k

ruleset consistent = (
  if-IsConsistent, stale-IsConsistent, gone-IsConsistent, forbidden-IsConsistent,
  shown-IsConsistent, refusal-IsConsistent,
)

poll_done-IsConsistent :
    (a : PollAnswer) (s : ExerciseControlState) → IsConsistent s → IsConsistent (poll_done a s)
unfolding poll_done
poll_done-IsConsistent poll_failed s h = search consistent
poll_done-IsConsistent (polled code none) s h = search consistent
poll_done-IsConsistent (polled code (some b)) s h = search consistent

if-IsConsistent_head :
    (b : Bool) (p q : ExerciseControlState × Option Wait)
    → IsConsistent p.0
    → IsConsistent q.0
    → IsConsistent (if b then p else q).0
if-IsConsistent_head true p q h k = h
if-IsConsistent_head false p q h k = k

op_head-IsConsistent :
    (op : String) (code : Option ℕ) (s : ExerciseControlState)
    → IsConsistent s
    → IsConsistent (op_head op code s).0
unfolding op_head
op_head-IsConsistent op none s h = search consistent
op_head-IsConsistent op (some code) s h = search (consistent, if-IsConsistent_head) depth 10

commanded-IsConsistent :
    (f : ExerciseStatusBody → ExerciseStatusBody) (s : ExerciseControlState)
    (o : Option ExerciseStatusBody)
    → IsConsistent s
    → IsConsistent (elim o [ none ↦ s | some b ↦ set_state (with_status (some (f b)) s) ])
commanded-IsConsistent f s none h = h
commanded-IsConsistent f s (some b) h = shown-IsConsistent (f b) s.stale none

op_body-IsConsistent :
    (op : String) (w : Wait) (b : Option (BodyOf w)) (s : ExerciseControlState)
    → IsConsistent s
    → IsConsistent (op_body op w b s)
unfolding op_body
op_body-IsConsistent op w none s h = stale-IsConsistent s h
op_body-IsConsistent op (refused_with code) (some r) s h = search consistent
op_body-IsConsistent op sequence_started (some r) s h = commanded-IsConsistent _ s s.status h
op_body-IsConsistent op accepted (some c) s h = commanded-IsConsistent _ s s.status h
op_body-IsConsistent op forwarded (some c) s h = commanded-IsConsistent _ s s.status h

step-IsConsistent :
    (e : Event) (s : ExerciseControlState) → IsConsistent s → IsConsistent (step e s)
unfolding step
step-IsConsistent (poll a) s h = poll_done-IsConsistent a s h
step-IsConsistent (head op code) s h = op_head-IsConsistent op code s h
step-IsConsistent (body op w b) s h = op_body-IsConsistent op w b s h

-- After any polls and ops, whose pieces may interleave in any way, the controller is consistent:
-- a status is there whenever the controls are shown and never while they are hidden or loading,
-- and a refusal that is kept has a text.
pub run-IsConsistent :
    (es : List Event) (s : ExerciseControlState) → IsConsistent s → IsConsistent (run es s)
unfolding run
run-IsConsistent [] s h = h
run-IsConsistent (e ∷ es) s h = run-IsConsistent es (step e s) (step-IsConsistent e s h)

pub initial-IsConsistent : IsConsistent initial
initial-IsConsistent = record {
  shown = λ e. cc;
  hidden = λ e. refl;
  unread = λ e. refl;
  said = λ h. absurd (h refl);
}

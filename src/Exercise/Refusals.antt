-- ===== src/Exercise/Refusals.antt =====
-- Which answers to an op take the controls away, and what the controller takes for an answer that it does
-- not know.
use openddil_demo.Base.{
  ℕ, String, ◌≡◌, refl, false, some, List, [], ◌∷◌, arith, ◌≢◌, inl, inr, ◌⊎◌, ◌↔◌, All, any,
  eq_iff, ◌==◌,
}
use openddil_demo.Exercise.{
  forbidden, absent, ExerciseControlState, forwarded, op_head, op_body, sequences_of, is_sequence,
  is_refusable, with_status,
}
use openddil_demo.Exercise.Types.{ExerciseStatusBody, ExerciseLastCommand, ExerciseSequence}

-- an op whose 403 is no refusal: no reset, no loop op, and no sequence that the status names
abbrev pub IsPlain : String → ExerciseControlState → Type 0
IsPlain op s =
    (op ≢ "reset")
    × (op ≢ "loop")
    × (op ≢ "loopstop")
    × All (λ (q : ExerciseSequence). q.name ≢ op) (sequences_of s.status)

unnamed :
    (op : String) (qs : List ExerciseSequence)
    → (any (λ (q : ExerciseSequence). q.name == op) qs ≡ false)
      ↔ All (λ (q : ExerciseSequence). q.name ≢ op) qs
unnamed op [] = (λ e. tt, λ h. refl)
unnamed op (q ∷ qs) = (
  λ e. (λ k. ground (arith, (eq_iff q.name op).1 k), (unnamed op qs).0 (ground arith)),
  λ (n, h). ground (arith, eq_iff q.name op, n, (unnamed op qs).1 h),
)

is_refusable_iff :
    (op : String) (s : ExerciseControlState) → (is_refusable op s ≡ false) ↔ IsPlain op s
unfolding is_refusable is_sequence
is_refusable_iff op s = (
  λ e. (
    λ k. ground (arith, (eq_iff op "reset").1 k),
    λ k. ground (arith, (eq_iff op "loop").1 k),
    λ k. ground (arith, (eq_iff op "loopstop").1 k),
    (unnamed op (sequences_of s.status)).0 (ground arith),
  ),
  λ (a, b, c, h). ground (
    arith,
    eq_iff op "reset",
    eq_iff op "loop",
    eq_iff op "loopstop",
    (unnamed op (sequences_of s.status)).1 h,
  ),
)

-- the answers that take the controls away, and those that leave them
abbrev pub IsDenial : String → ℕ → ExerciseControlState → Type 0
IsDenial op code s = (code ≡ 401) ⊎ ((code ≡ 403) × IsPlain op s)

-- the same, as the controller tests it
abbrev IsDenied : String → ℕ → ExerciseControlState → Type 0
IsDenied op code s = (code ≡ 401) ⊎ ((code ≡ 403) × (is_refusable op s ≡ false))

denied :
    (op : String) (code : ℕ) (s : ExerciseControlState) → IsDenied op code s ↔ IsDenial op code s
denied op code s = (
  λ d. elim d [ inl e ↦ inl e | inr (e, k) ↦ inr (e, (is_refusable_iff op s).0 k) ],
  λ d. elim d [ inl e ↦ inl e | inr (e, k) ↦ inr (e, (is_refusable_iff op s).1 k) ],
)

op_head_forbidden :
    (op : String) (code : ℕ) (s : ExerciseControlState)
    → s.kind ≢ forbidden
    → ((op_head op (some code) s).0.kind ≡ forbidden) ↔ IsDenied op code s
unfolding op_head
op_head_forbidden op code s ne = (λ h. ground arith, λ h. ground arith)

op_head_kept :
    (op : String) (code : ℕ) (s : ExerciseControlState)
    → ¬ IsDenied op code s
    → code ≢ 404
    → (op_head op (some code) s).0 ≡ s
unfolding op_head
op_head_kept op code s undenied there = ground (arith, undenied)

op_head_changed :
    (op : String) (code : ℕ) (s : ExerciseControlState)
    → s.kind ≢ forbidden
    → s.kind ≢ absent
    → (op_head op (some code) s).0 ≡ s
    → (¬ IsDenied op code s) × (code ≢ 404)
unfolding op_head
op_head_changed op code s ne na e = (λ d. ground arith, λ d. ground arith)

-- If the controls are neither forbidden nor gone, the status of an answer to an op forbids them exactly
-- if it is a 401, or a 403 on an op that is no reset, no loop op and no sequence; they are gone exactly
-- if it is a 404; and exactly on all other statuses nothing changes before the answer's body is read.
pub op_forbidden_iff :
    (op : String) (code : ℕ) (s : ExerciseControlState)
    → s.kind ≢ forbidden
    → s.kind ≢ absent
    → (((op_head op (some code) s).0.kind ≡ forbidden) ↔ IsDenial op code s)
      × (((op_head op (some code) s).0.kind ≡ absent) ↔ (code ≡ 404))
      × (((op_head op (some code) s).0 ≡ s) ↔ ((¬ IsDenial op code s) × (code ≢ 404)))
unfolding op_head
op_forbidden_iff op code s ne na =
    let (into, back) = denied op code s in
    let (gone, taken) = op_head_forbidden op code s ne in
    (
      (λ h. into (gone h), λ d. taken (back d)),
      (λ h. ground arith, λ h. ground arith),
      (
        λ e. let (d, t) = op_head_changed op code s ne na e in (λ x. d (back x), t),
        λ (d, t). op_head_kept op code s (λ x. d (into x)) t,
      ),
    )

abbrev pub known_codes : List ℕ
known_codes = 202 ∷ 401 ∷ 403 ∷ 404 ∷ 409 ∷ 502 ∷ []

-- Any other status is read as a call that was forwarded, also one that the gateway answers itself
-- (400, 503): its body becomes the last command, and the controls are shown as working.
pub op_unlisted :
    (op : String) (code : ℕ) (c : ExerciseLastCommand) (b : ExerciseStatusBody)
    (s : ExerciseControlState)
    → All (λ k. code ≢ k) known_codes
    → s.status ≡ some b
    → (op_head op (some code) s ≡ (s, some forwarded))
      × (op_body op forwarded (some c) s
          ≡ with_status (some (record b { last_command = some c })) s)
unfolding op_head op_body
op_unlisted op code c b s (n1, (n2, (n3, (n4, (n5, (n6, _)))))) e = (ground arith, ground arith)

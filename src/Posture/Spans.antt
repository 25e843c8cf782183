-- ===== src/Posture/Spans.antt =====
-- What the figures of a time in a state say.
use openddil_demo.Base.{
  ℕ, ◌+◌, ◌-◌, ◌*◌, ◌/◌, ◌%◌, ◌≤◌, ◌<◌, String, ◌≡◌, inl, inr, Option, some, arith, ltb, Bool-cases,
  Option-cases, subst,
}
use openddil_demo.Move.{ms}
use openddil_demo.Posture.{
  Elapsed, seconds, minutes, hours, days, elapsed_of, seconds_in_state, time_in_state,
}

-- the length of the figures, the unit of the smaller one, and how often this fits into the larger one
abbrev pub length_of : Elapsed → ℕ
length_of (seconds s) = s
length_of (minutes m s) = m * 60 + s
length_of (hours h m) = h * 3600 + m * 60
length_of (days d h) = d * 86400 + h * 3600

abbrev pub smaller_unit : Elapsed → ℕ
smaller_unit (seconds s) = 1
smaller_unit (minutes m s) = 1
smaller_unit (hours h m) = 60
smaller_unit (days d h) = 3600

abbrev pub IsTidy : Elapsed → Type 0
IsTidy (seconds s) = s < 60
IsTidy (minutes m s) = (0 < m) × (m < 60) × (s < 60)
IsTidy (hours h m) = (0 < h) × (h < 24) × (m < 60)
IsTidy (days d h) = (0 < d) × (h < 24)

-- the figures are right for a count of seconds
abbrev pub IsFor : ℕ → Elapsed → Type 0
IsFor s e = IsTidy e × (length_of e ≤ s) × (s < length_of e + smaller_unit e)

minutes-IsFor : (s : ℕ) → 60 ≤ s → s < 3600 → IsFor s (minutes (s / 60) (s % 60))
minutes-IsFor s a b = ((omega arith, omega arith, omega arith), omega arith, omega arith)

hours-IsFor : (s : ℕ) → 3600 ≤ s → s < 86400 → IsFor s (hours (s / 3600) ((s % 3600) / 60))
hours-IsFor s a b = ((omega arith, omega arith, omega arith), omega arith, omega arith)

days-IsFor : (s : ℕ) → 86400 ≤ s → IsFor s (days (s / 86400) ((s % 86400) / 3600))
days-IsFor s a = ((omega arith, omega arith), omega arith, omega arith)

elapsed_of-IsFor : (s : ℕ) → IsFor s (elapsed_of s)
unfolding elapsed_of
elapsed_of-IsFor s = elim (Bool-cases (ltb s 60)) [
  | inl a ↦ rw a (ground arith, omega arith, omega arith)
  | inr a ↦ elim (Bool-cases (ltb s 3600)) [
    | inl b ↦ rw a (rw b (minutes-IsFor s (ground arith) (ground arith)))
    | inr b ↦ elim (Bool-cases (ltb s 86400)) [
      | inl c ↦ rw a (rw b (rw c (hours-IsFor s (ground arith) (ground arith))))
      | inr c ↦ rw a (rw b (rw c (days-IsFor s (ground arith))))
    ]
  ]
]

-- A time in a state that is shown began at a time that can be read and lies at most five seconds ahead of
-- the clock. Its smaller figure stays below what makes one more of the larger, and the larger is not
-- nothing; and the figures say the whole seconds since then, short of one unit of the smaller figure.
pub time_in_state-IsFor :
    (date_parse : String → Option ℕ) (since : Option String) (now_ms : ℕ) (e : Elapsed)
    → time_in_state date_parse since now_ms ≡ some e
    → (t : ℕ) × (ms date_parse since ≡ some t) × (t ≤ now_ms + 5000) × IsFor ((now_ms - t) / 1000) e
unfolding time_in_state seconds_in_state
time_in_state-IsFor date_parse since now_ms e h = elim (Option-cases (ms date_parse since)) [
  | inl k ↦ absurd (ground arith)
  | inr (t, k) ↦ elim (Bool-cases (ltb (now_ms + 5000) t)) [
    | inl b ↦ absurd (ground arith)
    | inr b ↦
        let same : elapsed_of ((now_ms - t) / 1000) ≡ e = ground arith in
        (
          t,
          k,
          ground arith,
          subst (IsFor ((now_ms - t) / 1000)) same (elapsed_of-IsFor ((now_ms - t) / 1000)),
        )
  ]
]

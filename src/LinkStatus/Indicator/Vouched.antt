-- ===== src/LinkStatus/Indicator/Vouched.antt =====
-- When the uplink's label vouches for a row, and which changes it can ignore.
use openddil_demo.Base.{
  ℕ, ◌+◌, ◌*◌, ◌≤◌, String, ◌≡◌, refl, Bool, true, false, ◌&&◌, Option, none, some, arith, eqb,
  if◌then◌else◌, ◌↔◌, Option-cases, inl, inr, eqb→eq, eq_iff, ap,
}
use openddil_demo.Move.{ms}
use openddil_demo.LinkStatus.{LinkIndicatorKind, connected}
use openddil_demo.LinkStatus.Indicator.{
  LinkIndicatorStatus, is_stale, classify_link_indicator, link_indicator_inputs,
  same_link_indicator_inputs, same_bool, same_text,
}

-- The label says that the link is up exactly if a row is there and the shape is not in error, the
-- row's time can be read and is at most thirty seconds old, or ten if the label was stale before, the
-- probe is healthy and the link is not severed.
pub classify_link_indicator-connected :
    (date_parse : String → Option ℕ) (status : Option LinkIndicatorStatus) (is_error : Bool)
    (now_ms : ℕ) (prev : Option LinkIndicatorKind)
    → (classify_link_indicator date_parse status is_error now_ms prev ≡ connected) ↔ (
        (s : LinkIndicatorStatus) × (t : ℕ) × (status ≡ some s)
        × (is_error ≡ false)
        × (ms date_parse s.updated_at ≡ some t)
        × (now_ms ≤ t + (if is_stale prev then 10 else 30) * 1000)
        × (s.probe_healthy ≡ true)
        × (s.hq_link_severed ≡ false))
unfolding classify_link_indicator
classify_link_indicator-connected date_parse none is_error now_ms prev =
    (λ h. absurd (ground arith), λ (s, t, e, r, k, a, p, q). absurd (ground arith))
classify_link_indicator-connected date_parse (some status) is_error now_ms prev = (
  λ h. elim (Option-cases (ms date_parse status.updated_at)) [
    | inl e ↦ absurd (ground arith)
    | inr (t, e) ↦ (status, t, refl, ground arith, e, ground arith, ground arith, ground arith)
  ],
  λ (s, t, e, r, k, a, p, q). ground arith,
)

same_bool→eq : (a b : Bool) → same_bool a b ≡ true → a ≡ b
same_bool→eq a b h = ground arith

same_text→eq : (a b : Option String) → same_text a b ≡ true → a ≡ b
same_text→eq none none h = refl
same_text→eq none (some b) h = absurd (ground arith)
same_text→eq (some a) none h = absurd (ground arith)
same_text→eq (some a) (some b) h = ap (λ x. some x) (ground (arith, eq_iff a b))

all_six :
    (p q r s t u : Bool)
    → (p && q && r && s && t && u) ≡ true
    → (p ≡ true) × (q ≡ true) × (r ≡ true) × (s ≡ true) × (t ≡ true) × (u ≡ true)
all_six p q r s t u h =
    (ground arith, ground arith, ground arith, ground arith, ground arith, ground arith)

-- the label reads no more than the flattened inputs
classify-same :
    (date_parse : String → Option ℕ) (a b : LinkIndicatorStatus) (error : Bool) (now_ms : ℕ)
    (prev : Option LinkIndicatorKind)
    → a.hq_link_severed ≡ b.hq_link_severed
    → a.probe_healthy ≡ b.probe_healthy
    → a.updated_at ≡ b.updated_at
    → classify_link_indicator date_parse (some a) error now_ms prev
      ≡ classify_link_indicator date_parse (some b) error now_ms prev
unfolding classify_link_indicator
classify-same date_parse a b error now_ms prev severed healthy updated =
    rw (severed, healthy, updated) refl

-- Two renders whose flattened inputs compare as equal get the same label, whatever was shown before.
pub same_link_indicator_inputs-classify :
    (date_parse : String → Option ℕ) (a b : Option LinkIndicatorStatus) (a_error b_error : Bool)
    (a_ms b_ms : ℕ) (prev : Option LinkIndicatorKind)
    → same_link_indicator_inputs
        (link_indicator_inputs a a_error a_ms)
        (link_indicator_inputs b b_error b_ms)
      ≡ true
    → classify_link_indicator date_parse a a_error a_ms prev
      ≡ classify_link_indicator date_parse b b_error b_ms prev
unfolding classify_link_indicator link_indicator_inputs same_link_indicator_inputs
same_link_indicator_inputs-classify date_parse none none a_error b_error a_ms b_ms prev h = refl
same_link_indicator_inputs-classify date_parse none (some b) a_error b_error a_ms b_ms prev h =
    absurd (ground arith)
same_link_indicator_inputs-classify date_parse (some a) none a_error b_error a_ms b_ms prev h =
    absurd (ground arith)
same_link_indicator_inputs-classify date_parse (some a) (some b) a_error b_error a_ms b_ms prev h =
    let (_, severed, healthy, updated, error, now) =
      all_six true (same_bool a.hq_link_severed b.hq_link_severed)
        (same_bool a.probe_healthy b.probe_healthy) (same_text a.updated_at b.updated_at)
        (same_bool a_error b_error) (eqb a_ms b_ms) h in
    rw (same_bool→eq a_error b_error error, eqb→eq a_ms b_ms now)
      (classify-same date_parse a b b_error b_ms prev
        (same_bool→eq a.hq_link_severed b.hq_link_severed severed)
        (same_bool→eq a.probe_healthy b.probe_healthy healthy)
        (same_text→eq a.updated_at b.updated_at updated))

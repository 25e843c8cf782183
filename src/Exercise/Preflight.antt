-- ===== src/Exercise/Preflight.antt =====
-- The count that the operator is shown before a reset, and the body that the reset then carries:
-- `resetPreflight` and `resetConfirmBody` of frontend/src/lib/exerciseControl.ts.
use openddil_demo.Base.{
  ℕ, ◌≡◌, refl, Bool, true, false, ◌||◌, not, Option, none, some, arith, ◌↔◌, if◌then◌else◌, inl,
  inr, Option-cases,
}
use openddil_demo.Json.{
  Value, member, is_truthy, as_list, Fetched, failed, answered, is_ok, num, infinite, nan,
}

-- The document is kept as it was read; its fields are read where they are used.
pub data ResetPreflightView : Type 0 where
  loading unavailable : ResetPreflightView
  ready : Value → ResetPreflightView

-- the literal type `true`
pub data TrueLiteral : Type 0 where
  literally_true : TrueLiteral

pub record ResetConfirmBody : Type 0 where
  pub confirm_cancel_open : TrueLiteral
  pub seen_open : Value

unfoldable pub reset_confirm_body : Option ResetPreflightView → Option ResetConfirmBody
reset_confirm_body (some (ready pf)) =
    if is_truthy (member "unreadable" pf) || not (is_truthy (member "needs_confirmation" pf))
    then none
    else some (record { confirm_cancel_open = literally_true; seen_open = member "open_over" pf })
reset_confirm_body _ = none

abbrev pub is_list : Value → Bool
is_list v = elim (as_list v) [ none ↦ false | some vs ↦ true ]

-- `typeof x === 'number'`
abbrev pub is_number : Value → Bool
is_number (num n) = true
is_number infinite = true
is_number nan = true
is_number _ = false

abbrev pub is_malformed : Value → Bool
is_malformed doc =
    not (is_truthy doc)
    || not (is_list (member "runtimes" doc))
    || not (is_number (member "limit" doc))

unfoldable pub reset_preflight : Fetched → ResetPreflightView
reset_preflight failed = unavailable
reset_preflight (answered code none) = unavailable
reset_preflight (answered code (some doc)) =
    if not (is_ok code)
    then unavailable
    else if is_malformed doc
    then unavailable
    else if is_truthy (member "unreadable" doc)
    then unavailable
    else ready doc

-- the answer shows an operator a count that is over the limit
pub record ShowsCount (res : Fetched) (count : Value) : Type 0 where
  pub code : ℕ
  pub doc : Value
  pub got : res ≡ answered code (some doc)
  pub fine : is_ok code ≡ true
  pub formed : is_malformed doc ≡ false
  pub readable : is_truthy (member "unreadable" doc) ≡ false
  pub over : is_truthy (member "needs_confirmation" doc) ≡ true
  pub counted : member "open_over" doc ≡ count

confirm_from :
    (res : Fetched) (b : ResetConfirmBody)
    → reset_confirm_body (some (reset_preflight res)) ≡ some b
    → ShowsCount res b.seen_open
unfolding reset_confirm_body reset_preflight
confirm_from failed b h = cc
confirm_from (answered code none) b h = cc
confirm_from (answered code (some doc)) b h = record {
  code = code;
  doc = doc;
  got = refl;
  fine = ground arith;
  formed = ground arith;
  readable = ground arith;
  over = ground arith;
  counted = ground arith;
}

confirm_to :
    (res : Fetched) (count : Value)
    → ShowsCount res count
    → reset_confirm_body (some (reset_preflight res))
      ≡ some (record { confirm_cancel_open = literally_true; seen_open = count })
unfolding reset_confirm_body reset_preflight
confirm_to res count s =
    rw (s.got, s.fine) (rw s.formed (rw s.readable (rw (s.over, s.readable) (rw s.counted))))

confirm_none :
    (res : Fetched)
    → ¬ ((count : Value) × ShowsCount res count)
    → reset_confirm_body (some (reset_preflight res)) ≡ none
confirm_none res unshown = elim (Option-cases (reset_confirm_body (some (reset_preflight res)))) [
  | inl e ↦ e
  | inr (b, e) ↦ absurd (unshown (b.seen_open, confirm_from res b e))
]

-- Before the pre-flight is asked for or answered, the reset carries no body. Once it is answered, the
-- reset carries a confirmation of a count exactly when the pre-flight could be read, is well-formed,
-- asks for one and shows this count; and it carries no body at all exactly when there is no such count.
pub reset_confirm_body_iff :
    (res : Fetched) (count : Value)
    → (reset_confirm_body none ≡ none)
      × (reset_confirm_body (some loading) ≡ none)
      × ((reset_confirm_body (some (reset_preflight res))
            ≡ some (record { confirm_cancel_open = literally_true; seen_open = count }))
          ↔ ShowsCount res count)
      × ((reset_confirm_body (some (reset_preflight res)) ≡ none)
          ↔ ¬ ((shown : Value) × ShowsCount res shown))
unfolding reset_confirm_body
reset_confirm_body_iff res count = (
  refl,
  refl,
  (
    λ h. confirm_from res (record { confirm_cancel_open = literally_true; seen_open = count }) h,
    confirm_to res count,
  ),
  (λ e (shown, s). cc (e, confirm_to res shown s), confirm_none res),
)

-- ===== src/Move/Ledger/Peak.antt =====
-- The expended figure of a row, described without the replay: the most that was fired and not
-- replaced since some moment.
use openddil_demo.Base.{
  ℕ, ◌+◌, ◌≤◌, String, ◌≡◌, refl, ◌∙◌, Option, List, [], ◌∷◌, ◌++◌, arith, ◌==◌, if◌then◌else◌,
  sum_by, sum_by-append, ◌⊎◌, inl, inr, leb, ap, Bool-cases,
}
use openddil_demo.Move.Ledger.{
  fire, resupply, Ev, Tally, zero_tally, count_one, tally, LedgerDeclared, ledger_row,
}
use openddil_demo.Move.Ledger.Totals.{part, fired-tally, received-tally}

module _ (key : String) where
  abbrev pub fires : List Ev → ℕ
  fires es = sum_by (part fire key) es

  abbrev pub resupplies : List Ev → ℕ
  resupplies es = sum_by (part resupply key) es

  abbrev next : Ev → Tally → Tally
  next e a = if e.key == key then count_one e.kind e.q a else a

  whole_bound :
      (es : List Ev) (a : Tally) → a.expended + fires es ≤ (tally key es a).expended + resupplies es
  unfolding tally
  whole_bound [] a = omega arith
  whole_bound (e ∷ es) a = ground (arith, whole_bound es (next e a))

  suffix_bound :
      (before after : List Ev) (a : Tally)
      → fires after ≤ (tally key (before ++ after) a).expended + resupplies after
  unfolding tally
  suffix_bound [] after a = omega (arith, whole_bound after a)
  suffix_bound (e ∷ before) after a = suffix_bound before after (next e a)

  -- a moment since which nothing was replaced beyond what was fired
  pub record Since (es : List Ev) (expended : ℕ) : Type 0 where
    pub before : List Ev
    pub after : List Ev
    pub cut : es ≡ before ++ after
    pub exact : expended + resupplies after ≡ fires after

  one_event :
      (e : Ev) (es : List Ev) (a : Tally) (x : ℕ)
      → x + resupplies es ≡ (next e a).expended + fires es
      → (x + resupplies (e ∷ es) ≡ a.expended + fires (e ∷ es)) ⊎ (x + resupplies es ≡ fires es)
  one_event e es a x h = elim (Bool-cases (leb (part resupply key e) a.expended)) [
    | inl covered ↦ inl (ground arith)
    | inr clamped ↦ inr (ground arith)
  ]

  attained :
      (es : List Ev) (a : Tally)
      → ((tally key es a).expended + resupplies es ≡ a.expended + fires es)
        ⊎ Since es (tally key es a).expended
  unfolding tally
  attained [] a = inl (omega arith)
  attained (e ∷ es) a = elim (attained es (next e a)) [
    | inl h ↦ elim (one_event e es a (tally key es (next e a)).expended h) [
      | inl k ↦ inl k
      | inr k ↦ inr (record { before = e ∷ []; after = es; cut = refl; exact = k })
    ]
    | inr s ↦ inr (record {
      before = e ∷ s.before;
      after = s.after;
      cut = ap (λ l. e ∷ l) s.cut;
      exact = s.exact;
    })
  ]

  -- from nothing, the whole history is such a stretch too
  peak : (es : List Ev) → Since es (tally key es zero_tally).expended
  peak es = elim (attained es zero_tally) [
    | inl h ↦ record { before = []; after = es; cut = refl; exact = omega arith }
    | inr s ↦ s
  ]

  -- A row's expended figure is the largest surplus of fires over resupplies in the events since any
  -- moment: it is at least each such surplus, and equal to one of them.
  pub ledger_row_expended :
      (declared : LedgerDeclared) (iso : Option String) (before after : List Ev)
      → (fires after
          ≤ (ledger_row declared iso (before ++ after) key).expended.value + resupplies after)
        × Since (before ++ after) (ledger_row declared iso (before ++ after) key).expended.value
  unfolding ledger_row
  ledger_row_expended declared iso before after =
      (suffix_bound before after zero_tally, peak (before ++ after))

  -- A row's expended figure never exceeds what was fired, and what was received covers the rest.
  pub ledger_row_bounds :
      (declared : LedgerDeclared) (iso : Option String) (es : List Ev)
      → ((ledger_row declared iso es key).expended.value
          ≤ (ledger_row declared iso es key).fired.value)
        × ((ledger_row declared iso es key).fired.value
            ≤ (ledger_row declared iso es key).expended.value
              + (ledger_row declared iso es key).received.value)
  unfolding ledger_row
  ledger_row_bounds declared iso es =
      let low = whole_bound es zero_tally in
      let s = peak es in
      let split : fires es ≡ fires s.before + fires s.after =
        ap fires s.cut ∙ sum_by-append (part fire key) s.before s.after in
      (
        omega (arith, s.exact, split, fired-tally key es zero_tally),
        omega (arith, low, fired-tally key es zero_tally, received-tally key es zero_tally),
      )

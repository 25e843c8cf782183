-- ===== src/Topology/Unseen.antt =====
-- The measure of the two recursions of buildTheaterTopology: the tiers that are not yet seen.
use openddil_demo.Base.{
  ℕ, suc, ◌<◌, ◌≤◌, String, ◌≡◌, sym, inl, inr, true, false, List, [], ◌∷◌, arith, ◌==◌, eq_iff,
  if◌then◌else◌, length, Bool-cases, subst,
}
use openddil_demo.Base.Sort.{holds_text}

-- how many of the tiers are not in the list
abbrev pub unseen : List String → List String → ℕ
unseen [] seen = 0
unseen (k ∷ ks) seen = let rest = unseen ks seen in if holds_text k seen then rest else suc rest

unseen_le : (ks seen : List String) (p : String) → unseen ks (p ∷ seen) ≤ unseen ks seen
unseen_le [] seen p = omega arith
unseen_le (k ∷ ks) seen p = ground (arith, unseen_le ks seen p)

pub unseen_less :
    (ks seen : List String) (p : String)
    → holds_text p ks ≡ true
    → holds_text p seen ≡ false
    → unseen ks (p ∷ seen) < unseen ks seen
unseen_less [] seen p h new = absurd (ground arith)
unseen_less (k ∷ ks) seen p h new = elim (Bool-cases (k == p)) [
  | inl e ↦
      let same : k ≡ p = (eq_iff k p).0 e in
      let free : holds_text k seen ≡ false =
        subst (λ x. holds_text x seen ≡ false) (sym same) new in
      let first : (p == k) ≡ true = (eq_iff p k).1 (sym same) in
      ground (arith, unseen_le ks seen p, free, first)
  | inr e ↦ ground (arith, unseen_le ks seen p, unseen_less ks seen p)
]

pub unseen_bound : (drawn seen : List String) → unseen drawn seen ≤ length drawn
unseen_bound [] seen = omega arith
unseen_bound (k ∷ ks) seen = ground (arith, unseen_bound ks seen)

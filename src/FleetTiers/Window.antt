-- ===== src/FleetTiers/Window.antt =====
-- The window of samples: distinct, in order, recent and bounded.
use openddil_demo.Base.{
  ℕ, zero, suc, ◌-◌, ◌≤◌, ◌<◌, ◌≡◌, true, Option, none, some, List, [], ◌∷◌, ◌++◌, arith, ltb,
  length, All, Bool-cases, inl, inr,
}
use openddil_demo.AssetTier.{LivenessThresholds}
use openddil_demo.FleetTiers.{
  last_of, is_newer, record_sample, trim, drop, window_start, window_after,
}

abbrev pub Increasing : List ℕ → Type 0
Increasing [] = Unit {0}
Increasing (x ∷ xs) = All (λ y. x < y) xs × Increasing xs

All-lt_trans : (x y : ℕ) (xs : List ℕ) → x < y → All (λ z. y < z) xs → All (λ z. x < z) xs
All-lt_trans x y [] h a = tt
All-lt_trans x y (z ∷ xs) h (p, a) = (omega arith, All-lt_trans x y xs h a)

Increasing-append :
    (xs : List ℕ) (s : ℕ)
    → Increasing xs
    → is_newer (last_of xs) s ≡ true
    → Increasing (xs ++ s ∷ [])
Increasing-append [] s h n = (tt, tt)
Increasing-append (x ∷ []) s h n = ((ground arith, tt), (tt, tt))
Increasing-append (x ∷ y ∷ xs) s ((p, a), h) n =
    let (b, k) = Increasing-append (y ∷ xs) s h n in
    ((p, All-lt_trans x y (xs ++ s ∷ []) p b), (b, k))

record_sample-Increasing :
    (o : Option ℕ) (xs : List ℕ) → Increasing xs → Increasing (record_sample o xs)
unfolding record_sample
record_sample-Increasing none xs h = h
record_sample-Increasing (some s) xs h = elim (Bool-cases (is_newer (last_of xs) s)) [
  | inl e ↦ rw e (Increasing-append xs s h e)
  | inr e ↦ rw e h
]

trim-Increasing : (w : ℕ) (xs : List ℕ) → Increasing xs → Increasing (trim w xs)
unfolding trim
trim-Increasing w [] h = h
trim-Increasing w (x ∷ xs) h = elim (Bool-cases (ltb x w)) [
  | inl e ↦ rw e (trim-Increasing w xs h.1)
  | inr e ↦ rw e h
]

All-le : (w x : ℕ) (xs : List ℕ) → w ≤ x → All (λ y. x < y) xs → All (λ y. w ≤ y) xs
All-le w x [] h a = tt
All-le w x (y ∷ xs) h (p, a) = (omega arith, All-le w x xs h a)

trim-recent : (w : ℕ) (xs : List ℕ) → Increasing xs → All (λ y. w ≤ y) (trim w xs)
unfolding trim
trim-recent w [] h = tt
trim-recent w (x ∷ xs) h = elim (Bool-cases (ltb x w)) [
  | inl e ↦ rw e (trim-recent w xs h.1)
  | inr e ↦ rw e (ground arith, All-le w x xs (ground arith) h.0)
]

drop-Increasing : (n : ℕ) (xs : List ℕ) → Increasing xs → Increasing (drop n xs)
drop-Increasing zero xs h = h
drop-Increasing (suc n) [] h = tt
drop-Increasing (suc n) (x ∷ xs) h = drop-Increasing n xs h.1

drop-All {κ} : (P : ℕ → Type κ) (n : ℕ) (xs : List ℕ) → All P xs → All P (drop n xs)
drop-All P zero xs h = h
drop-All P (suc n) [] h = h
drop-All P (suc n) (x ∷ xs) h = drop-All P n xs h.1

length-drop : (n : ℕ) (xs : List ℕ) → length (drop n xs) ≡ length xs - n
length-drop zero xs = omega arith
length-drop (suc n) [] = omega arith
length-drop (suc n) (x ∷ xs) = omega (arith, length-drop n xs)

-- the window that a cycle leaves, whatever was recorded
pub record IsWindow (th : LivenessThresholds) (now_ms : ℕ) (xs : List ℕ) : Type 0 where
  pub distinct : Increasing xs
  pub recent : All (λ y. window_start th now_ms ≤ y) xs
  pub bounded : length xs ≤ th.recovery_samples_n

pub window_after-IsWindow :
    (th : LivenessThresholds) (now_ms : ℕ) (o : Option ℕ) (xs : List ℕ)
    → Increasing xs
    → IsWindow th now_ms (window_after th now_ms o xs)
unfolding window_after
window_after-IsWindow th now_ms o xs h =
    let w = window_start th now_ms in
    let ys = record_sample o xs in
    let k = record_sample-Increasing o xs h in
    let zs = trim w ys in
    record {
      distinct = drop-Increasing (length zs - th.recovery_samples_n) zs (trim-Increasing w ys k);
      recent = drop-All (λ y. w ≤ y) (length zs - th.recovery_samples_n) zs (trim-recent w ys k);
      bounded = omega (arith, length-drop (length zs - th.recovery_samples_n) zs);
    }

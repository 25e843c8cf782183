-- ===== src/AssetTier/Deserved.antt =====
-- Which tier the classifier of frontend/src/lib/assetTier.ts gives, and the order of the tiers.
use openddil_demo.Base.{
  ℕ, suc, ◌+◌, ◌≤◌, ◌<◌, String, ◌≡◌, ◌≢◌, ◌⊎◌, inl, inr, refl, ap, subst, ◌↔◌, Bool, true, false,
  Option, none, some, List, [], ◌∷◌, arith, ◌*◌, ◌==◌, eq_iff, Bool-cases, if◌then◌else◌,
}
use native.Mathlib.Nat.{div-lt_iff_lt-mul}
use openddil_demo.Json.{Decimal, power_of_ten, limit_ms, power_of_ten-pos}
use openddil_demo.AssetTier.{
  AssetTier, active, degraded, stale, comm_lost, lost, tier_order, LivenessThresholds,
  ClassifyInput, is_degraded_health, is_older, classify_sample, classify_asset_tier, sample_ms,
}

-- the place of a tier in a list of tiers
abbrev pub is_tier : AssetTier → AssetTier → Bool
is_tier active active = true
is_tier degraded degraded = true
is_tier stale stale = true
is_tier comm_lost comm_lost = true
is_tier lost lost = true
is_tier _ _ = false

abbrev pub place : AssetTier → List AssetTier → ℕ
place t [] = 0
place t (u ∷ us) = if is_tier t u then 0 else suc (place t us)

abbrev rank : AssetTier → ℕ
rank lost = 0
rank comm_lost = 1
rank stale = 2
rank degraded = 3
rank active = 4

place-rank : (t : AssetTier) → place t tier_order ≡ rank t
place-rank active = refl
place-rank degraded = refl
place-rank stale = refl
place-rank comm_lost = refl
place-rank lost = refl

-- A limit in seconds is exceeded exactly if its exact fraction is.
limit_ms_exact :
    (d : Decimal) (n : ℕ) → (limit_ms d < n) ↔ (1000 * d.digits < n * power_of_ten d.scale)
limit_ms_exact d n = div-lt_iff_lt-mul (power_of_ten-pos d.scale)

-- the sample is more than the limit old, and it is not
abbrev IsPast : Decimal → ClassifyInput → ℕ → Type 0
IsPast limit input s = s + limit_ms limit < input.now_ms

abbrev pub IsWithin : Decimal → ClassifyInput → ℕ → Type 0
IsWithin limit input s = input.now_ms ≤ s + limit_ms limit

-- what each tier says of an asset; a sample that cannot be read is `none`
abbrev pub Deserves : ClassifyInput → LivenessThresholds → Option ℕ → AssetTier → Type 0
Deserves input th none lost = Unit {0}
Deserves input th none _ = ⊥
Deserves input th (some s) lost = IsPast th.lost_after_s input s
Deserves input th (some s) comm_lost =
    IsWithin th.lost_after_s input s
    × IsPast th.stale_after_s input s
    × (input.edge_link_severed ≡ true)
Deserves input th (some s) stale =
    IsWithin th.lost_after_s input s
    × IsPast th.stale_after_s input s
    × (input.edge_link_severed ≡ false)
Deserves input th (some s) degraded =
    IsWithin th.lost_after_s input s
    × IsWithin th.stale_after_s input s
    × ((input.health_state ≡ some "HEALTH_STATE_FAULT")
        ⊎ (input.health_state ≡ some "HEALTH_STATE_FAILED"))
Deserves input th (some s) active =
    IsWithin th.lost_after_s input s
    × IsWithin th.stale_after_s input s
    × (input.health_state ≢ some "HEALTH_STATE_FAULT")
    × (input.health_state ≢ some "HEALTH_STATE_FAILED")

degraded_health :
    (h : Option String)
    → is_degraded_health h ≡ true
    → (h ≡ some "HEALTH_STATE_FAULT") ⊎ (h ≡ some "HEALTH_STATE_FAILED")
unfolding is_degraded_health
degraded_health none e = cc
degraded_health (some s) e = elim (Bool-cases (s == "HEALTH_STATE_FAULT")) [
  | inl k ↦ inl (ap some ((eq_iff s "HEALTH_STATE_FAULT").0 k))
  | inr k ↦ inr (ap some ((eq_iff s "HEALTH_STATE_FAILED").0 (ground arith)))
]

sound_health :
    (h : Option String)
    → is_degraded_health h ≡ false
    → (h ≢ some "HEALTH_STATE_FAULT") × (h ≢ some "HEALTH_STATE_FAILED")
unfolding is_degraded_health
sound_health h e = (λ k. ground arith, λ k. ground arith)

-- the tier that the classifier gives is deserved
classify_sample-Deserves :
    (input : ClassifyInput) (th : LivenessThresholds) (s : Option ℕ)
    → Deserves input th s (classify_sample input th s)
unfolding classify_sample
classify_sample-Deserves input th none = tt
classify_sample-Deserves input th (some s) =
    elim (Bool-cases (is_older input.now_ms s th.lost_after_s)) [
      | inl l ↦ rw l (ground arith)
      | inr l ↦ rw l (elim (Bool-cases (is_older input.now_ms s th.stale_after_s)) [
        | inl k ↦ rw k (elim (Bool-cases input.edge_link_severed) [
          | inl c ↦ rw c (ground arith, ground arith, refl)
          | inr c ↦ rw c (ground arith, ground arith, refl)
        ])
        | inr k ↦ rw k (elim (Bool-cases (is_degraded_health input.health_state)) [
          | inl c ↦ rw c (ground arith, ground arith, degraded_health input.health_state c)
          | inr c ↦
              let (a, b) = sound_health input.health_state c in
              rw c (ground arith, ground arith, a, b)
        ])
      ])
    ]

faulty_health :
    (h : Option String)
    → (h ≡ some "HEALTH_STATE_FAULT") ⊎ (h ≡ some "HEALTH_STATE_FAILED")
    → is_degraded_health h ≡ true
unfolding is_degraded_health
faulty_health h (inl e) = rw e refl
faulty_health h (inr e) = rw e refl

healthy :
    (h : Option String)
    → h ≢ some "HEALTH_STATE_FAULT"
    → h ≢ some "HEALTH_STATE_FAILED"
    → is_degraded_health h ≡ false
healthy h a b = elim (Bool-cases (is_degraded_health h)) [
  | inl e ↦ elim (degraded_health h e) [ inl k ↦ absurd (a k) | inr k ↦ absurd (b k) ]
  | inr e ↦ e
]

-- and no other tier is
classify_sample-deserved :
    (input : ClassifyInput) (th : LivenessThresholds) (s : Option ℕ) (t : AssetTier)
    → Deserves input th s t
    → classify_sample input th s ≡ t
unfolding classify_sample
classify_sample-deserved input th none lost h = refl
classify_sample-deserved input th none active h = absurd h
classify_sample-deserved input th none degraded h = absurd h
classify_sample-deserved input th none stale h = absurd h
classify_sample-deserved input th none comm_lost h = absurd h
classify_sample-deserved input th (some s) lost h = ground arith
classify_sample-deserved input th (some s) comm_lost (a, b, c) = ground arith
classify_sample-deserved input th (some s) stale (a, b, c) = ground arith
classify_sample-deserved input th (some s) degraded (a, b, c) =
    ground (arith, faulty_health input.health_state c)
classify_sample-deserved input th (some s) active (a, b, c, d) =
    ground (arith, healthy input.health_state c d)

classify_sample_iff :
    (input : ClassifyInput) (th : LivenessThresholds) (s : Option ℕ) (t : AssetTier)
    → (classify_sample input th s ≡ t) ↔ Deserves input th s t
classify_sample_iff input th s t = (
  λ e. subst (Deserves input th s) e (classify_sample-Deserves input th s),
  classify_sample-deserved input th s t,
)

classify_sample_mono :
    (input : ClassifyInput) (th : LivenessThresholds) (later : ℕ) (s : Option ℕ)
    → input.now_ms ≤ later
    → rank (classify_sample (record input { now_ms = later }) th s)
      ≤ rank (classify_sample input th s)
unfolding classify_sample
classify_sample_mono input th later none h = omega arith
classify_sample_mono input th later (some s) h = ground arith

-- An asset has a tier exactly if it deserves it: lost without a readable sample or with one that is
-- older than the lost limit; otherwise, beyond the stale limit, comm-lost or stale as its link is
-- severed or not; otherwise degraded or active as its health is faulty or not. As time alone passes,
-- with the sample, the health, the link and the thresholds as they are, the tier's place in
-- `tier_order` never rises.
pub classify_asset_tier_iff :
    (date_parse : String → Option ℕ) (input : ClassifyInput) (th : LivenessThresholds) (later : ℕ)
    (t : AssetTier)
    → input.now_ms ≤ later
    → ((classify_asset_tier date_parse input th ≡ t)
        ↔ Deserves input th (sample_ms date_parse input.last_sample_at) t)
      × (place (classify_asset_tier date_parse (record input { now_ms = later }) th) tier_order
          ≤ place (classify_asset_tier date_parse input th) tier_order)
unfolding classify_asset_tier
classify_asset_tier_iff date_parse input th later t h =
    let s = sample_ms date_parse input.last_sample_at in
    (
      classify_sample_iff input th s t,
      rw
          (
            place-rank (classify_sample (record input { now_ms = later }) th s),
            place-rank (classify_sample input th s),
          )
          (classify_sample_mono input th later s h),
    )

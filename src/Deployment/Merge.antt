-- ===== src/Deployment/Merge.antt =====
-- mergeDeploymentSources of frontend/src/deployment.ts: which file a key is read from.
use openddil_demo.Base.{
  String, ◌≡◌, refl, inl, inr, Bool, false, ◌||◌, Option, none, some, arith, ◌==◌, eq_iff,
  if◌then◌else◌, or_else, Bool-cases, subst,
}
use openddil_demo.Json.{Value, Entries, undefined, done, entry, object, lookup, has_member}
use openddil_demo.Deployment.{put_entry, spread, merge_deployment_sources}

abbrev pub has : String → Entries → Bool
has k fs = has_member k (object fs)

-- no key stands twice, as in every object that JavaScript has
abbrev pub AreDistinct : Entries → Type 0
AreDistinct done = Unit {0}
AreDistinct (entry k v fs) = (has k fs ≡ false) × AreDistinct fs

lookup-put_entry :
    (k j : String) (v : Value) (fs : Entries)
    → lookup j (put_entry k v fs) ≡ (if k == j then v else lookup j fs)
unfolding put_entry lookup
lookup-put_entry k j v done = refl
lookup-put_entry k j v (entry i w fs) =
    ground (arith, eq_iff k j, eq_iff i k, eq_iff i j, lookup-put_entry k j v fs)

has-put_entry :
    (k j : String) (v : Value) (fs : Entries) → has j (put_entry k v fs) ≡ (k == j || has j fs)
unfolding put_entry has_member
has-put_entry k j v done = refl
has-put_entry k j v (entry i w fs) =
    ground (arith, eq_iff k j, eq_iff i k, eq_iff i j, has-put_entry k j v fs)

absent-lookup : (k : String) (fs : Entries) → has k fs ≡ false → lookup k fs ≡ undefined
unfolding has_member lookup
absent-lookup k done h = refl
absent-lookup k (entry j v fs) h = ground (arith, absent-lookup k fs)

-- the later object wins
lookup-spread :
    (k : String) (base overlay : Entries)
    → AreDistinct overlay
    → (lookup k (spread base overlay) ≡ (if has k overlay then lookup k overlay else lookup k base))
      × (has k (spread base overlay) ≡ (has k overlay || has k base))
unfolding spread lookup has_member
lookup-spread k base done h = (refl, refl)
lookup-spread k base (entry j v overlay) (new, rest) =
    let (value, there) = lookup-spread k (put_entry j v base) overlay rest in
    elim (Bool-cases (j == k)) [
      | inl e ↦
          let gone : has k overlay ≡ false = ground (arith, eq_iff j k, new) in
          (
            ground (arith, value, lookup-put_entry j k v base),
            ground (arith, there, has-put_entry j k v base),
          )
      | inr e ↦ (
        ground (arith, value, lookup-put_entry j k v base),
        ground (arith, there, has-put_entry j k v base),
      )
    ]

lookup-spread_both :
    (k : String) (base overlay : Entries)
    → AreDistinct base
    → AreDistinct overlay
    → (lookup k (spread (spread done base) overlay)
        ≡ (if has k overlay then lookup k overlay else lookup k base))
      × (has k (spread (spread done base) overlay) ≡ (has k overlay || has k base))
unfolding lookup has_member
lookup-spread_both k base overlay h l =
    let (value, there) = lookup-spread k done base h in
    let (value2, there2) = lookup-spread k (spread done base) overlay l in
    (ground (arith, value, value2, absent-lookup k base), ground (arith, there, there2))

-- A key of the merged configuration has its value in the overlay's file if this has the key, and
-- otherwise its value in the chart's file; the configuration has the key exactly if one of the files has
-- it. A file that is not there has no key.
pub lookup-merge_deployment_sources :
    (k : String) (base overlay : Option Entries) (merged : Entries)
    → AreDistinct (or_else base done)
    → AreDistinct (or_else overlay done)
    → merge_deployment_sources base overlay ≡ some merged
    → (lookup k merged ≡ (
        if has k (or_else overlay done)
        then lookup k (or_else overlay done)
        else lookup k (or_else base done)))
      × (has k merged ≡ (has k (or_else overlay done) || has k (or_else base done)))
unfolding merge_deployment_sources
lookup-merge_deployment_sources k none none merged h l e = absurd (ground arith)
lookup-merge_deployment_sources k (some base) none merged h l e =
    let same : spread (spread done base) done ≡ merged = ground arith in
    subst
      (λ m.
        (lookup k m ≡ (if has k done then lookup k done else lookup k base))
        × (has k m ≡ (has k done || has k base)))
      same (lookup-spread_both k base done h l)
lookup-merge_deployment_sources k none (some overlay) merged h l e =
    let same : spread (spread done done) overlay ≡ merged = ground arith in
    subst
      (λ m.
        (lookup k m ≡ (if has k overlay then lookup k overlay else lookup k done))
        × (has k m ≡ (has k overlay || has k done)))
      same (lookup-spread_both k done overlay h l)
lookup-merge_deployment_sources k (some base) (some overlay) merged h l e =
    let same : spread (spread done base) overlay ≡ merged = ground arith in
    subst
      (λ m.
        (lookup k m ≡ (if has k overlay then lookup k overlay else lookup k base))
        × (has k m ≡ (has k overlay || has k base)))
      same (lookup-spread_both k base overlay h l)

-- ===== src/Deployment/Load.antt =====
-- loadDeployment of frontend/src/deployment.ts: what holds of the configuration after it, whatever the
-- files and the site table were.
use openddil_demo.Base.{
  trim, ℕ, zero, suc, ◌<◌, String, ◌≡◌, refl, sym, ◌⊎◌, inl, inr, true, false, Option, none, some,
  arith, Bool-cases, Option-cases, subst,
}
use openddil_demo.Json.{
  Value, Entries, Decimal, whole, floor, is_positive, object, member, as_num, has_member,
}
use openddil_demo.SiteTable.{SiteTable, Parsed, ok, fail, empty_site_table, parse_site_table_text}
use openddil_demo.SiteTable.Accepted.{IsTable, parse_site_table-IsTable}
use openddil_demo.SiteTable.Selection.{select_for_tier}
use openddil_demo.Deployment.Tier.{TierConfig, implicit_root, parse_tier}
use openddil_demo.AssetTier.{LivenessThresholds}
use openddil_demo.Deployment.Terrain.{pick_pos, at_least_one, merge_liveness}
use openddil_demo.Deployment.Reread.{IsTier, parse_tier_reread}
use openddil_demo.Deployment.{
  Deployment, default_title, title_or, tier_of, configured, apply_sources, with_table,
  apply_site_table,
}

pub record IsPositive (l : LivenessThresholds) : Type 0 where
  pub stale : is_positive l.stale_after_s ≡ true
  pub lost : is_positive l.lost_after_s ≡ true
  pub samples : 0 < l.recovery_samples_n
  pub window : is_positive l.recovery_window_s ≡ true

abbrev pub IsTierOption : Option TierConfig → Type 0
IsTierOption none = Unit {0}
IsTierOption (some t) = IsTier t

-- the sites are the selection of one well-formed table, for the tier that is configured; the table is
-- empty if there is an error
pub record IsDrawn (d : Deployment) : Type 0 where
  pub table : SiteTable
  pub good : IsTable table
  pub fobs : d.fobs ≡ (select_for_tier table d.tier).fobs
  pub own : d.own_fob ≡ (select_for_tier table d.tier).own_fob
  pub sites : d.tier_sites ≡ (select_for_tier table d.tier).tier_sites
  pub hq : d.hq ≡ (select_for_tier table d.tier).hq
  pub error : (d.site_table_error ≡ none) ⊎ (table ≡ empty_site_table)

-- what holds of the configuration apart from the sites
pub record IsSound (d : Deployment) : Type 0 where
  pub tier : IsTierOption d.tier
  pub liveness : IsPositive d.liveness

pick_pos-is_positive :
    (d : Decimal) (v : Value) → is_positive d ≡ true → is_positive (pick_pos d v) ≡ true
unfolding pick_pos
pick_pos-is_positive d v h = elim (Option-cases (as_num v)) [
  | inl e ↦ ground (arith, h)
  | inr (x, e) ↦ ground (arith, h)
]

positive_count : (n : ℕ) → 0 < at_least_one n
positive_count zero = omega arith
positive_count (suc n) = omega arith

pub merge_liveness-IsPositive : (x : Value) → IsPositive (merge_liveness x)
unfolding merge_liveness
merge_liveness-IsPositive x = record {
  stale = pick_pos-is_positive _ (member "stale_after_s" x) refl;
  lost = pick_pos-is_positive _ (member "lost_after_s" x) refl;
  samples = positive_count (floor (pick_pos (whole 3) (member "recovery_samples_n" x)));
  window = pick_pos-is_positive _ (member "recovery_window_s" x) refl;
}

pub implicit_root-IsTier : IsTier implicit_root
unfolding trim
implicit_root-IsTier = record { id = (refl, refl); label = (refl, refl); scope = tt; parent = tt }

parse_tier-IsTierOption : (v : Value) → IsTierOption (parse_tier v)
parse_tier-IsTierOption v = elim (Option-cases (parse_tier v)) [
  | inl e ↦ subst IsTierOption (sym e) tt
  | inr (t, e) ↦ let (fine, again) = parse_tier_reread v t e in subst IsTierOption (sym e) fine
]

pub given-tier_of :
    (j : Value) → has_member "tier" j ≡ true → tier_of j ≡ parse_tier (member "tier" j)
unfolding tier_of
given-tier_of j e = rw (e, tier_of) refl

pub absent-tier_of : (j : Value) → has_member "tier" j ≡ false → tier_of j ≡ some implicit_root
unfolding tier_of
absent-tier_of j e = rw (e, tier_of) refl

tier_of-IsTier : (j : Value) → IsTierOption (tier_of j)
tier_of-IsTier j = elim (Bool-cases (has_member "tier" j)) [
  | inl e ↦ subst IsTierOption (sym (given-tier_of j e)) (parse_tier-IsTierOption (member "tier" j))
  | inr e ↦ subst IsTierOption (sym (absent-tier_of j e)) implicit_root-IsTier
]

-- a file either sets the whole configuration or, if its title or its logo throws, leaves it
pub apply_sources_either :
    (P : Deployment → Type 0) (fs : Entries) (d : Deployment)
    → P d
    → ((title logo : String) → P (configured title logo (object fs)))
    → P (apply_sources (some fs) d)
unfolding apply_sources
apply_sources_either P fs d old new =
    go (title_or default_title (member "title" (object fs)))
      (title_or "" (member "logo" (object fs)))
  where
    go :
        (a b : Option String)
        → P (elim a [
          | none ↦ d
          | some title ↦ elim b [ none ↦ d | some logo ↦ configured title logo (object fs) ]
        ])
    go none b = old
    go (some title) none = old
    go (some title) (some logo) = new title logo

pub apply_sources-IsSound :
    (o : Option Entries) (d : Deployment) → IsSound d → IsSound (apply_sources o d)
unfolding apply_sources
apply_sources-IsSound none d h = h
apply_sources-IsSound (some fs) d h = apply_sources_either IsSound fs d h (λ title logo. record {
  tier = tier_of-IsTier (object fs);
  liveness = merge_liveness-IsPositive (member "liveness" (object fs));
})

with_table-IsSound : (p : Parsed SiteTable) (d : Deployment) → IsSound d → IsSound (with_table p d)
with_table-IsSound (ok t) d h = record { tier = h.tier; liveness = h.liveness }
with_table-IsSound (fail e) d h = record { tier = h.tier; liveness = h.liveness }

pub apply_site_table-IsSound :
    (yaml : String → Option Value) (o : Option String) (d : Deployment)
    → IsSound d
    → IsSound (apply_site_table yaml o d)
unfolding apply_site_table
apply_site_table-IsSound yaml none d h = with_table-IsSound (ok empty_site_table) d h
apply_site_table-IsSound yaml (some s) d h = with_table-IsSound (parse_site_table_text yaml s) d h

empty-IsTable : IsTable empty_site_table
empty-IsTable = record { fobs = tt; sites = tt }

parse_site_table_text-IsTable :
    (yaml : String → Option Value) (s : String) (t : SiteTable)
    → parse_site_table_text yaml s ≡ ok t
    → IsTable t
unfolding parse_site_table_text
parse_site_table_text-IsTable yaml s t h = elim (Option-cases (yaml s)) [
  | inl e ↦ absurd (ground arith)
  | inr (raw, e) ↦ parse_site_table-IsTable raw t (ground arith)
]

with_table-IsDrawn :
    (p : Parsed SiteTable) (d : Deployment)
    → ((t : SiteTable) → p ≡ ok t → IsTable t)
    → IsDrawn (with_table p d)
with_table-IsDrawn (ok t) d h = record {
  table = t;
  good = h t refl;
  fobs = refl;
  own = refl;
  sites = refl;
  hq = refl;
  error = inl refl;
}
with_table-IsDrawn (fail e) d h = record {
  table = empty_site_table;
  good = empty-IsTable;
  fobs = refl;
  own = refl;
  sites = refl;
  hq = refl;
  error = inr refl;
}

pub apply_site_table-IsDrawn :
    (yaml : String → Option Value) (o : Option String) (d : Deployment)
    → IsDrawn (apply_site_table yaml o d)
unfolding apply_site_table
apply_site_table-IsDrawn yaml none d =
    with_table-IsDrawn (ok empty_site_table) d
      (λ t e. let same : empty_site_table ≡ t = ground arith in subst IsTable same empty-IsTable)
apply_site_table-IsDrawn yaml (some s) d =
    with_table-IsDrawn (parse_site_table_text yaml s) d (parse_site_table_text-IsTable yaml s)

-- ===== src/Deployment/Loaded.antt =====
-- loadDeployment of frontend/src/deployment.ts as a whole.
use openddil_demo.Base.{
  String, ◌≡◌, refl, sym, ap, ◌∙◌, Bool, true, false, ◌&&◌, not, Option, none, some, if◌then◌else◌,
  subst,
}
use openddil_demo.Json.{
  Value, Entries, Fetched, failed, answered, is_ok, undefined, null, text, infinite, nan, bool, num,
  array, object, lookup, member, has_member,
}
use openddil_demo.SiteTable.{SiteTable, Parsed, ok, fail, parse_site_table_text}
use openddil_demo.Base.Dict.{is_some}
use openddil_demo.Deployment.Tier.{TierConfig, implicit_root, parse_tier}
use openddil_demo.Deployment.Load.{
  IsSound, IsDrawn, apply_sources-IsSound, apply_site_table-IsSound, apply_site_table-IsDrawn,
}
use openddil_demo.Deployment.{
  Deployment, default_title, title_or, tier_of, configured, apply_sources, with_table,
  apply_site_table, apply_branding, apply_branding_file, fetch_site_table_text, Answers, sources,
  load_deployment,
}

apply_branding_file_either :
    (P : Deployment → Type 0) (f : Fetched) (d : Deployment)
    → P d
    → ((title logo : String) → P (record d { title = title; logo = logo }))
    → P (apply_branding_file f d)
unfolding apply_branding_file apply_branding
apply_branding_file_either P failed d old new = old
apply_branding_file_either P (answered status none) d old new = old
apply_branding_file_either P (answered status (some j)) d old new = go (is_ok status)
  where
    go : (b : Bool) → P (if b then apply_branding d j else d)
    go true = new _ _
    go false = old

-- After any load, whatever was fetched, the sites are the selection, for the tier that is configured, of
-- one well-formed table, which is empty if the table was rejected; and if the configuration before had a
-- well-formed tier or none, and positive thresholds, so has the configuration after.
pub load_deployment-IsSound :
    (yaml : String → Option Value) (a : Answers) (active : Deployment)
    → IsSound active
    → IsSound (load_deployment yaml a active) × IsDrawn (load_deployment yaml a active)
unfolding load_deployment
load_deployment-IsSound yaml a active h =
    let first = apply_sources (sources a) active in
    let site_text = fetch_site_table_text a.sites in
    let sound =
      apply_site_table-IsSound yaml site_text first (apply_sources-IsSound (sources a) active h) in
    let drawn = apply_site_table-IsDrawn yaml site_text first in
    (
      apply_branding_file_either IsSound a.branding (apply_site_table yaml site_text first) sound
          (λ title logo. record { tier = sound.tier; liveness = sound.liveness }),
      apply_branding_file_either IsDrawn a.branding (apply_site_table yaml site_text first) drawn
          (λ title logo. record {
            table = drawn.table;
            good = drawn.good;
            fobs = drawn.fobs;
            own = drawn.own;
            sites = drawn.sites;
            hq = drawn.hq;
            error = drawn.error;
          }),
    )

abbrev pub unbranded : Deployment → Deployment
unbranded d = record d { title = ""; logo = "" }

apply_branding_file-unbranded :
    (f : Fetched) (d : Deployment) → unbranded (apply_branding_file f d) ≡ unbranded d
apply_branding_file-unbranded f d =
    apply_branding_file_either (λ x. unbranded x ≡ unbranded d) f d refl (λ title logo. refl)

-- Two loads that differ in the answer for the branding file alone give configurations that differ in the
-- title and the logo alone.
pub load_deployment-unbranded :
    (yaml : String → Option Value) (a : Answers) (branding : Fetched) (active : Deployment)
    → unbranded (load_deployment yaml (record a { branding = branding }) active)
      ≡ unbranded (load_deployment yaml a active)
unfolding load_deployment
load_deployment-unbranded yaml a branding active =
    let d =
      apply_site_table yaml (fetch_site_table_text a.sites) (apply_sources (sources a) active) in
    apply_branding_file-unbranded branding d ∙ sym (apply_branding_file-unbranded a.branding d)

-- a member with `trim`, or one that `?.` passes over
abbrev pub is_titled : Value → Bool
is_titled undefined = true
is_titled null = true
is_titled (text s) = true
is_titled _ = false

with_table-tier : (p : Parsed SiteTable) (d : Deployment) → (with_table p d).tier ≡ d.tier
with_table-tier (ok t) d = refl
with_table-tier (fail e) d = refl

apply_site_table-tier :
    (yaml : String → Option Value) (o : Option String) (d : Deployment)
    → (apply_site_table yaml o d).tier ≡ d.tier
unfolding apply_site_table
apply_site_table-tier yaml none d = refl
apply_site_table-tier yaml (some s) d = with_table-tier (parse_site_table_text yaml s) d

title_or-is_titled : (d : String) (v : Value) → is_some (title_or d v) ≡ is_titled v
unfolding title_or
title_or-is_titled d undefined = refl
title_or-is_titled d null = refl
title_or-is_titled d infinite = refl
title_or-is_titled d nan = refl
title_or-is_titled d (text s) = refl
title_or-is_titled d (bool b) = refl
title_or-is_titled d (num n) = refl
title_or-is_titled d (array vs) = refl
title_or-is_titled d (object fs) = refl

-- the tier after the first part
apply_sources-tier :
    (fs : Entries) (d : Deployment)
    → (apply_sources (some fs) d).tier ≡ (
        if is_titled (member "title" (object fs)) && is_titled (member "logo" (object fs))
        then tier_of (object fs)
        else d.tier)
unfolding apply_sources
apply_sources-tier fs d =
    subst
      (λ b.
        (apply_sources (some fs) d).tier
        ≡ (if b && is_titled (member "logo" (object fs)) then tier_of (object fs) else d.tier))
      (title_or-is_titled default_title (member "title" (object fs)))
      (subst
        (λ b. (apply_sources (some fs) d).tier ≡ (
          if is_some (title_or default_title (member "title" (object fs))) && b
          then tier_of (object fs)
          else d.tier))
        (title_or-is_titled "" (member "logo" (object fs)))
        (go (title_or default_title (member "title" (object fs)))
          (title_or "" (member "logo" (object fs)))))
  where
    go :
        (a b : Option String)
        → (elim a as (λ x. Deployment) [
          | none ↦ d
          | some title ↦ elim b as (λ x. Deployment) [
            | none ↦ d
            | some logo ↦ configured title logo (object fs)
          ]
        ]).tier
          ≡ (if is_some a && is_some b then tier_of (object fs) else d.tier)
    go none b = refl
    go (some title) none = refl
    go (some title) (some logo) = refl

swapped {ℓ} : {A : Type ℓ} (b : Bool) (x y : A) → (if b then x else y) ≡ (if not b then y else x)
swapped true x y = refl
swapped false x y = refl

abbrev pub tier_after : Option Entries → Option TierConfig → Option TierConfig
tier_after none before = before
tier_after (some fs) before =
    if not (is_titled (lookup "title" fs) && is_titled (lookup "logo" fs))
    then before
    else if has_member "tier" (object fs)
    then parse_tier (lookup "tier" fs)
    else some implicit_root

-- The tier of a load is what the merged file declares, and none if its declaration is bad; only a file
-- that has no tier at all makes a root; but a file whose title or logo is neither a text nor absent
-- leaves the tier that was there before, as no file does. The site table and the branding have no say.
pub load_deployment-tier :
    (yaml : String → Option Value) (a : Answers) (active : Deployment)
    → (load_deployment yaml a active).tier ≡ tier_after (sources a) active.tier
unfolding load_deployment tier_of
load_deployment-tier yaml a active =
    ap (λ (d : Deployment). d.tier)
      (apply_branding_file-unbranded a.branding
        (apply_site_table yaml (fetch_site_table_text a.sites) (apply_sources (sources a) active)))
    ∙ apply_site_table-tier yaml (fetch_site_table_text a.sites) (apply_sources (sources a) active)
    ∙ go (sources a)
  where
    go : (o : Option Entries) → (apply_sources o active).tier ≡ tier_after o active.tier
    go none = refl
    go (some fs) =
        apply_sources-tier fs active
        ∙ swapped (is_titled (lookup "title" fs) && is_titled (lookup "logo" fs))
            (tier_of (object fs)) active.tier

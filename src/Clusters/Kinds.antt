-- ===== src/Clusters/Kinds.antt =====
-- `kindsOf` of frontend/src/lib/clusterKinds.ts: the kinds that a cluster shows and those that it
-- hides, and the tests that split a cluster and merge an edge.
pub mod Shown
use openddil_demo.Base.{
  ℕ, zero, suc, ◌+◌, ◌*◌, String, Bool, true, false, ◌||◌, ◌&&◌, not, Option, none, some, List, [],
  ◌∷◌, ◌++◌, map, ◌==◌, eqb, ltb, leb, if◌then◌else◌, length, or_else, lower_codes, starts_with,
  ends_with,
}
use openddil_demo.Base.Dict.{Dict}
use openddil_demo.Base.Groups.{group_from}
use openddil_demo.Base.Sort.{sort_by}

abbrev pub max_kinds : ℕ
max_kinds = 4

-- `SEV_RANK[x] ?? 0`
unfoldable pub sev_rank : String → ℕ
sev_rank s =
    if s == "LOGISTICS_SEVERITY_DEGRADED"
    then 1
    else if s == "LOGISTICS_SEVERITY_CRITICAL"
    then 2
    else if s == "LOGISTICS_SEVERITY_NON_OPERATIONAL"
    then 3
    else 0

abbrev pub ends_in : String → String → Bool
ends_in p s = ends_with (lower_codes p) (lower_codes s)

abbrev pub starts_in : String → String → Bool
starts_in p s = starts_with (lower_codes p) (lower_codes s)

abbrev pub role_of_name : String → ℕ
role_of_name v =
    if v == ""
    then 4
    else if ends_in "_interceptor" v
        || ends_in "_launcher" v
        || starts_in "MISSILE_LAUNCHER" v
        || starts_in "M1A2" v
        || starts_in "AH-64" v
    then 0
    else if ends_in "_sensor" v || ends_in "_radar" v
    then 1
    else if v == "HEADQUARTER_COMPLEX" || v == "AIR_DEFENSE_SITE"
    then 2
    else 3

unfoldable pub role_of : Option String → ℕ
role_of v = role_of_name (or_else v "")

pub record KindMember : Type 0 where
  pub variant : Option String
  pub severity : String

pub record Kind : Type 0 where
  pub variant : Option String
  pub members : List KindMember
  pub sev : String

-- `reduce((w, x) => …)` over the severities
abbrev pub worst_of : String → List KindMember → String
worst_of w [] = w
worst_of w (m ∷ ms) = worst_of (if ltb (sev_rank w) (sev_rank m.severity) then m.severity else w) ms

-- a list of the map is never empty
abbrev pub kind_of : List KindMember → Kind
kind_of [] = record { variant = none; members = []; sev = "" }
kind_of (m ∷ ms) = record { variant = m.variant; members = m ∷ ms; sev = worst_of m.severity ms }

abbrev pub kind_of_group : String × List KindMember → Kind
kind_of_group (key, ms) = kind_of ms

unfoldable pub all_kinds : List KindMember → List Kind
all_kinds members =
    map kind_of_group (group_from (λ (a : KindMember). or_else a.variant "") members [])

unfoldable pub is_faulted : Kind → Bool
is_faulted k = ltb 0 (sev_rank k.sev)

abbrev pub fault_rank : Kind → ℕ
fault_rank k = if is_faulted k then 0 else 1

-- `slice(0, n)` and `slice(n)`
abbrev pub take {ℓ} : {A : Type ℓ} → ℕ → List A → List A
take n [] = []
take zero (x ∷ xs) = []
take (suc n) (x ∷ xs) = x ∷ take n xs

abbrev pub drop {ℓ} : {A : Type ℓ} → ℕ → List A → List A
drop n [] = []
drop zero (x ∷ xs) = x ∷ xs
drop (suc n) (x ∷ xs) = drop n xs

pub record KindsOf : Type 0 where
  pub shown : List Kind
  pub hidden : List Kind

-- `locale_le a b` stands for `a.localeCompare(b) <= 0`
module _ (locale_le : String → String → Bool) where
  unfoldable pub order_le : Kind → Kind → Bool
  order_le x y =
      let rx = role_of x.variant in
      let ry = role_of y.variant in
      let nx = length x.members in
      let ny = length y.members in
      ltb rx ry
      || (eqb rx ry
          && (ltb ny nx || (eqb nx ny && locale_le (or_else x.variant "") (or_else y.variant ""))))

  unfoldable pub pick_le : Kind → Kind → Bool
  unfolding order_le
  pick_le x y =
      ltb (fault_rank x) (fault_rank y) || (eqb (fault_rank x) (fault_rank y) && order_le x y)

  unfoldable pub arranged : List Kind → KindsOf
  unfolding pick_le
  arranged kinds =
      let pick = sort_by pick_le kinds in
      if leb (length kinds) max_kinds
      then record { shown = sort_by order_le kinds; hidden = [] }
      else record {
        shown = sort_by order_le (take 3 pick);
        hidden = sort_by order_le (drop 3 pick);
      }

  unfoldable pub kinds_of : List KindMember → KindsOf
  unfolding all_kinds arranged
  kinds_of members = arranged (all_kinds members)

-- the separation and the radius as numbers of one unit, with the source's factors over ten
unfoldable pub should_split : Bool → ℕ → ℕ → Bool
should_split clustered min_sep r_sym =
    not (if clustered then ltb (10 * min_sep) (24 * r_sym) else ltb (10 * min_sep) (20 * r_sym))

unfoldable pub next_merged : Option Bool → ℕ → ℕ → Bool
next_merged was_merged len r_sym =
    ltb (10 * len) ((if or_else was_merged false then 24 else 20) * r_sym)

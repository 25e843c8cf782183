-- ===== src/Aggregates.antt =====
-- frontend/src/lib/fleetAggregates.ts: the lists and counts over the whole fleet. A rate is kept as its
-- two counts, which are compared as quotients.
pub mod Sums
mod Tests
use Prim.Native.Char.{code}
use Prim.Native.String
use openddil_demo.Base.{
  ℕ, suc, ◌+◌, ◌*◌, String, Bool, true, false, not, ◌&&◌, ◌||◌, Option, none, some, List, [], ◌∷◌,
  map, ◌==◌, eqb, leb, any, if◌then◌else◌, or_else,
}
use openddil_demo.Base.Dict
use openddil_demo.Base.Dict.{Dict}
use openddil_demo.Base.Sort.{sort_by}
use openddil_demo.Json.{Value, power_of_ten, member, as_text, as_num}

-- the columns that are used of the rows
pub record RosterAsset : Type 0 where
  pub asset_id : String
  pub callsign : Option String
  pub platform_variant : Option String
  pub posture_status : String
  pub posture_since : Option String

pub record LogisticsStatus : Type 0 where
  pub asset_id : String
  pub overall_severity : String

pub record CmState : Type 0 where
  pub asset_id : String
  pub baseline_id : Option String
  pub mod_status : Option (List Value)

-- `SEVERITY_RANK[sev] ?? 0`
unfoldable pub severity_rank : Option String → ℕ
severity_rank none = 0
severity_rank (some s) =
    if s == "LOGISTICS_SEVERITY_NON_OPERATIONAL"
    then 4
    else if s == "LOGISTICS_SEVERITY_CRITICAL"
    then 3
    else if s == "LOGISTICS_SEVERITY_DEGRADED"
    then 2
    else if s == "LOGISTICS_SEVERITY_OK"
    then 1
    else 0

pub record AorRow : Type 0 where
  pub asset_id : String
  pub callsign : Option String
  pub platform_variant : Option String
  pub severity : String
  pub posture_status : String
  pub posture_since : Option String

unfoldable pub severity_by_asset : Dict String → List LogisticsStatus → Dict String
severity_by_asset d [] = d
severity_by_asset d (l ∷ ls) = severity_by_asset (Dict.put l.asset_id l.overall_severity d) ls

abbrev pub aor_row : Dict String → RosterAsset → AorRow
aor_row severities a = record {
  asset_id = a.asset_id;
  callsign = a.callsign;
  platform_variant = a.platform_variant;
  severity = or_else (Dict.get a.asset_id severities) "LOGISTICS_SEVERITY_UNSPECIFIED";
  posture_status = a.posture_status;
  posture_since = a.posture_since;
}

abbrev pub is_worse : AorRow → AorRow → Bool
is_worse x y = leb (severity_rank (some y.severity)) (severity_rank (some x.severity))

unfoldable pub aor_asset_list : List RosterAsset → List LogisticsStatus → List AorRow
unfolding severity_by_asset
aor_asset_list fleet logistics =
    sort_by is_worse (map (aor_row (severity_by_asset [] logistics)) fleet)

-- `s.split('-')[0]`
abbrev pub before_dash : String → String
before_dash String.[] = String.[]
before_dash (String.◌∷◌ c s) =
    let rest = before_dash s in if eqb (code c) 45 then String.[] else String.◌∷◌ c rest

unfoldable pub platform_family : Option String → String
platform_family none = "UNKNOWN"
platform_family (some v) =
    if v == "" then "UNKNOWN" else if before_dash v == "" then v else before_dash v

pub record Compliance : Type 0 where
  pub total : ℕ
  pub compliant : ℕ

pub record MwoComplianceRow : Type 0 where
  pub family : String
  pub counts : Compliance

-- the word, or the number 3
unfoldable pub is_overdue_mod : Value → Bool
is_overdue_mod m =
    or_else (as_text (member "state" m)) "" == "MOD_STATE_OVERDUE"
    || elim (as_num (member "state" m)) [
      | none ↦ false
      | some d ↦ not d.negative && eqb d.digits (3 * power_of_ten d.scale)
    ]

abbrev pub is_overdue : CmState → Bool
is_overdue row = any is_overdue_mod (or_else row.mod_status [])

unfoldable pub variant_by_asset : Dict (Option String) → List RosterAsset → Dict (Option String)
variant_by_asset d [] = d
variant_by_asset d (a ∷ fleet) = variant_by_asset (Dict.put a.asset_id a.platform_variant d) fleet

abbrev pub counted : Bool → Compliance → Compliance
counted overdue e = record {
  total = e.total + 1;
  compliant = if overdue then e.compliant else e.compliant + 1;
}

abbrev pub no_counts : Compliance
no_counts = record { total = 0; compliant = 0 }

-- the family of a row, through the roster
abbrev pub family_of : Dict (Option String) → CmState → String
family_of variants row = platform_family (or_else (Dict.get row.asset_id variants) none)

unfoldable pub by_family : Dict (Option String) → Dict Compliance → List CmState → Dict Compliance
by_family variants d [] = d
by_family variants d (row ∷ cm) =
    let family = family_of variants row in
    by_family variants
      (Dict.put family (counted (is_overdue row) (or_else (Dict.get family d) no_counts)) d) cm

abbrev pub compliance_row : String × Compliance → MwoComplianceRow
compliance_row (family, e) = record { family = family; counts = e }

-- `a.rate - b.rate <= 0`; a family has at least one asset
abbrev pub rate_le : MwoComplianceRow → MwoComplianceRow → Bool
rate_le a b = leb (a.counts.compliant * b.counts.total) (b.counts.compliant * a.counts.total)

unfoldable pub mwo_compliance_by_family : List CmState → List RosterAsset → List MwoComplianceRow
unfolding by_family variant_by_asset
mwo_compliance_by_family cm fleet =
    sort_by rate_le (map compliance_row (by_family (variant_by_asset [] fleet) [] cm))

pub record BaselineBucket : Type 0 where
  pub baseline_id : String
  pub count : ℕ

unfoldable pub by_baseline : Dict ℕ → List CmState → Dict ℕ
by_baseline d [] = d
by_baseline d (row ∷ cm) =
    let id = or_else row.baseline_id "(none)" in
    by_baseline (Dict.put id (or_else (Dict.get id d) 0 + 1) d) cm

abbrev pub bucket_of : String × ℕ → BaselineBucket
bucket_of (id, n) = record { baseline_id = id; count = n }

abbrev pub is_larger : BaselineBucket → BaselineBucket → Bool
is_larger a b = leb b.count a.count

unfoldable pub baseline_distribution : List CmState → List BaselineBucket
unfolding by_baseline
baseline_distribution cm = sort_by is_larger (map bucket_of (by_baseline [] cm))

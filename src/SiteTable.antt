-- ===== src/SiteTable.antt =====
-- frontend/src/siteTable.ts: the table of sites, the maps' only source of positions. One bad row
-- rejects the whole table. A rejection is a value here where the source writes a sentence.
pub mod Accepted
pub mod Printed
pub mod Selection
mod Tests
use openddil_demo.Base.{
  ℕ, zero, suc, ◌+◌, ◌*◌, String, Bool, true, false, ◌||◌, ◌&&◌, not, Option, none, some, List, [],
  ◌∷◌, ◌==◌, leb, ltb, eqb, if◌then◌else◌, length, filter, find, or_else, truthy,
}
use openddil_demo.Base.Sort.{holds_text}
use openddil_demo.Json.{
  Value, Entries, Decimal, power_of_ten, is_map, has_member, done, entry, undefined, null, text,
  array, object, items, lookup, member, as_text, as_num, as_list, is_nullish,
}

pub record Fob : Type 0 where
  pub edge_id : String
  pub region_id : String
  pub lat : Decimal
  pub lon : Decimal
  pub label : Option String

pub record TierSite : Type 0 where
  pub tier_id : String
  pub lat : Decimal
  pub lon : Decimal
  pub label : Option String

pub record SiteTable : Type 0 where
  pub fobs : List Fob
  pub tier_sites : List TierSite

abbrev pub empty_site_table : SiteTable
empty_site_table = record { fobs = []; tier_sites = [] }

pub data RowError : Type 0 where
  not_a_mapping no_id no_region : RowError
  lat_not_a_number lat_outside lon_not_a_number lon_outside bad_label : RowError
  duplicate edge_of_fob : String → RowError

pub data SiteError : Type 0 where
  not_yaml not_a_file fobs_in_two_places fobs_not_a_list step_without_fobs sites_not_a_list :
      SiteError
  too_many_steps : ℕ → SiteError
  fob_row : ℕ → RowError → SiteError
  site_row : ℕ → RowError → SiteError

pub data Parsed {ℓ} (A : Type ℓ) : Type ℓ where
  ok : A → Parsed A
  fail : SiteError → Parsed A

-- a text that is not empty; the empty text for any other value
abbrev pub name_of : Value → String
name_of v = or_else (as_text v) ""

-- a number between `- limit` and `limit`
abbrev pub within : ℕ → Decimal → Bool
within limit d = leb d.digits (limit * power_of_ten d.scale)

abbrev pub is_within : ℕ → Option Decimal → Bool
is_within limit none = false
is_within limit (some d) = within limit d

unfoldable pub check_lat_lon : Value → Option RowError
check_lat_lon r = elim (as_num (member "lat" r)) [
  | none ↦ some lat_not_a_number
  | some lat ↦ if not (within 90 lat) then some lat_outside else elim (as_num (member "lon" r)) [
    | none ↦ some lon_not_a_number
    | some lon ↦ if not (within 180 lon) then some lon_outside else none
  ]
]

-- `r.lat as number`, after the check
abbrev pub number_of : Value → Decimal
number_of v = or_else (as_num v) (record { negative = false; digits = 0; scale = 0 })

abbrev pub is_label : Value → Bool
is_label undefined = true
is_label null = true
is_label (text s) = true
is_label _ = false

-- an empty label is left out
abbrev pub label_of : Value → Option String
label_of v = let s = name_of v in if s == "" then none else some s

-- what is wrong with a row of `fobs`, with the edge ids of the rows before it
unfoldable pub fob_error : List String → Value → Option RowError
unfolding check_lat_lon
fob_error seen r =
    if not (is_map r)
    then some not_a_mapping
    else if name_of (member "edge_id" r) == ""
    then some no_id
    else if name_of (member "region_id" r) == ""
    then some no_region
    else elim (check_lat_lon r) [
      | some e ↦ some e
      | none ↦
          if not (is_label (member "label" r))
          then some bad_label
          else if holds_text (name_of (member "edge_id" r)) seen
          then some (duplicate (name_of (member "edge_id" r)))
          else none
    ]

abbrev pub fob_of : Value → Fob
fob_of r = record {
  edge_id = name_of (member "edge_id" r);
  region_id = name_of (member "region_id" r);
  lat = number_of (member "lat" r);
  lon = number_of (member "lon" r);
  label = label_of (member "label" r);
}

abbrev pub with_row {ℓ} : {A : Type ℓ} → A → Parsed (List A) → Parsed (List A)
with_row a (ok rows) = ok (a ∷ rows)
with_row a (fail e) = fail e

-- the rows from the `i`-th on
unfoldable pub parse_fobs : ℕ → List String → List Value → Parsed (List Fob)
unfolding fob_error
parse_fobs i seen [] = ok []
parse_fobs i seen (r ∷ rs) =
    let rest = parse_fobs (suc i) (name_of (member "edge_id" r) ∷ seen) rs in
    elim (fob_error seen r) [ some e ↦ fail (fob_row i e) | none ↦ with_row (fob_of r) rest ]

unfoldable pub site_error : List String → List String → Value → Option RowError
unfolding check_lat_lon
site_error edge_ids seen r =
    if not (is_map r)
    then some not_a_mapping
    else if name_of (member "tier_id" r) == ""
    then some no_id
    else elim (check_lat_lon r) [
      | some e ↦ some e
      | none ↦
          if not (is_label (member "label" r))
          then some bad_label
          else if holds_text (name_of (member "tier_id" r)) seen
          then some (duplicate (name_of (member "tier_id" r)))
          else if holds_text (name_of (member "tier_id" r)) edge_ids
          then some (edge_of_fob (name_of (member "tier_id" r)))
          else none
    ]

abbrev pub site_of : Value → TierSite
site_of r = record {
  tier_id = name_of (member "tier_id" r);
  lat = number_of (member "lat" r);
  lon = number_of (member "lon" r);
  label = label_of (member "label" r);
}

unfoldable pub parse_sites : ℕ → List String → List String → List Value → Parsed (List TierSite)
unfolding site_error
parse_sites i edge_ids seen [] = ok []
parse_sites i edge_ids seen (r ∷ rs) =
    let rest = parse_sites (suc i) edge_ids (name_of (member "tier_id" r) ∷ seen) rs in
    elim (site_error edge_ids seen r) [
      | some e ↦ fail (site_row i e)
      | none ↦ with_row (site_of r) rest
    ]

abbrev pub is_nearest : Value → Bool
is_nearest v = is_map v && name_of (member "strategy" v) == "nearest_fob"

abbrev pub listed : Value → List Value
listed v = or_else (as_list v) []

-- the steps that carry FOB rows
unfoldable pub steps_of : Value → List Value
steps_of root =
    if is_nearest root
    then root ∷ []
    else if name_of (member "strategy" root) == "chain"
    then filter is_nearest (listed (member "chain" root))
    else []

abbrev pub has_top : Value → Bool
has_top root = has_member "fobs" root && not (name_of (member "strategy" root) == "nearest_fob")

abbrev pub top_rows : Option (List Value) → Parsed (List Value)
top_rows none = fail fobs_not_a_list
top_rows (some rows) = ok rows

abbrev pub step_rows : Option (List Value) → Parsed (List Value)
step_rows none = fail step_without_fobs
step_rows (some []) = fail step_without_fobs
step_rows (some (r ∷ rs)) = ok (r ∷ rs)

unfoldable pub fob_rows : Value → Parsed (List Value)
unfolding has_member steps_of
fob_rows root = elim (steps_of root) [
  | [] ↦ if has_top root then top_rows (as_list (member "fobs" root)) else ok []
  | s ∷ [] ↦ if has_top root then fail fobs_in_two_places else step_rows (as_list (member "fobs" s))
  | s ∷ t ∷ ss ↦ fail (too_many_steps (length (s ∷ t ∷ ss)))
]

abbrev pub edge_ids_of : List Fob → List String
edge_ids_of [] = []
edge_ids_of (f ∷ fobs) = f.edge_id ∷ edge_ids_of fobs

abbrev pub site_rows : Value → Parsed (List Value)
site_rows v =
    if is_nullish v
    then ok []
    else elim (as_list v) [ none ↦ fail sites_not_a_list | some rows ↦ ok rows ]

abbrev pub with_sites : List Fob → Parsed (List TierSite) → Parsed SiteTable
with_sites fobs (fail e) = fail e
with_sites fobs (ok sites) = ok (record { fobs = fobs; tier_sites = sites })

abbrev pub sites_after : Value → List Fob → Parsed (List Value) → Parsed SiteTable
sites_after root fobs (fail e) = fail e
sites_after root fobs (ok rows) = with_sites fobs (parse_sites 0 (edge_ids_of fobs) [] rows)

abbrev pub after_fobs : Value → Parsed (List Fob) → Parsed SiteTable
after_fobs root (fail e) = fail e
after_fobs root (ok fobs) = sites_after root fobs (site_rows (member "tier_sites" root))

abbrev pub after_rows : Value → Parsed (List Value) → Parsed SiteTable
after_rows root (fail e) = fail e
after_rows root (ok rows) = after_fobs root (parse_fobs 0 [] rows)

-- the backends' wrapper is taken off
abbrev pub root_of : Value → Value
root_of raw = if is_map (member "edge_assignment" raw) then member "edge_assignment" raw else raw

unfoldable pub parse_site_table : Value → Parsed SiteTable
unfolding fob_rows parse_fobs parse_sites
parse_site_table raw =
    if not (is_map raw) then fail not_a_file else after_rows (root_of raw) (fob_rows (root_of raw))

-- `yaml` stands for the package's parser, `none` where it throws
unfoldable pub parse_site_table_text : (String → Option Value) → String → Parsed SiteTable
unfolding parse_site_table
parse_site_table_text yaml s = elim (yaml s) [
  | none ↦ fail not_yaml
  | some raw ↦ parse_site_table raw
]

-- ===== src/SiteTable/Accepted.antt =====
-- What an accepted table satisfies.
use openddil_demo.Base.{
  ℕ, suc, String, ◌≡◌, refl, ◌⊎◌, inl, inr, Bool, true, false, not, Option, none, some, List, [],
  ◌∷◌, arith, ◌==◌, Bool-cases, Option-cases, subst,
}
use openddil_demo.Base.Sort.{holds_text}
use openddil_demo.Json.{Value, Decimal, member, as_num}
use openddil_demo.SiteTable.{
  Fob, TierSite, SiteTable, SiteError, Parsed, ok, fail, name_of, within, check_lat_lon, number_of,
  label_of, fob_error, fob_of, parse_fobs, site_error, site_of, parse_sites, edge_ids_of, site_rows,
  after_rows, root_of, fob_rows, parse_site_table,
}

abbrev pub is_named : Option String → Bool
is_named none = true
is_named (some s) = not (s == "")

-- a place on the globe
abbrev pub IsPlace : Decimal → Decimal → Type 0
IsPlace lat lon = (within 90 lat ≡ true) × (within 180 lon ≡ true)

pub record IsFob (f : Fob) : Type 0 where
  pub edge : (f.edge_id == "") ≡ false
  pub region : (f.region_id == "") ≡ false
  pub place : IsPlace f.lat f.lon
  pub label : is_named f.label ≡ true

pub record IsSite (edge_ids : List String) (s : TierSite) : Type 0 where
  pub tier : (s.tier_id == "") ≡ false
  pub place : IsPlace s.lat s.lon
  pub label : is_named s.label ≡ true
  pub apart : holds_text s.tier_id edge_ids ≡ false

-- FOBs, none of which has an edge id that came before
abbrev pub AreFobs : List String → List Fob → Type 0
AreFobs seen [] = Unit {0}
AreFobs seen (f ∷ fobs) =
    IsFob f × (holds_text f.edge_id seen ≡ false) × AreFobs (f.edge_id ∷ seen) fobs

abbrev pub AreSites : List String → List String → List TierSite → Type 0
AreSites edge_ids seen [] = Unit {0}
AreSites edge_ids seen (s ∷ sites) =
    IsSite edge_ids s
    × (holds_text s.tier_id seen ≡ false)
    × AreSites edge_ids (s.tier_id ∷ seen) sites

pub record IsTable (t : SiteTable) : Type 0 where
  pub fobs : AreFobs [] t.fobs
  pub sites : AreSites (edge_ids_of t.fobs) [] t.tier_sites

label_of-is_named : (v : Value) → is_named (label_of v) ≡ true
label_of-is_named v = elim (Bool-cases (name_of v == "")) [
  | inl e ↦ rw e refl
  | inr e ↦ rw e (rw e refl)
]

check_lat_lon-IsPlace :
    (r : Value)
    → check_lat_lon r ≡ none
    → IsPlace (number_of (member "lat" r)) (number_of (member "lon" r))
unfolding check_lat_lon
check_lat_lon-IsPlace r h = elim (Option-cases (as_num (member "lat" r))) [
  | inl e ↦ absurd (ground arith)
  | inr (lat, e) ↦ elim (Option-cases (as_num (member "lon" r))) [
    | inl k ↦ absurd (ground arith)
    | inr (lon, k) ↦ (ground arith, ground arith)
  ]
]

fob_error-IsFob :
    (seen : List String) (r : Value)
    → fob_error seen r ≡ none
    → IsFob (fob_of r) × (holds_text (name_of (member "edge_id" r)) seen ≡ false)
unfolding fob_error
fob_error-IsFob seen r h = elim (Option-cases (check_lat_lon r)) [
  | inl e ↦ (
    record {
      edge = ground arith;
      region = ground arith;
      place = check_lat_lon-IsPlace r e;
      label = label_of-is_named (member "label" r);
    },
    ground arith,
  )
  | inr (x, e) ↦ absurd (ground arith)
]

site_error-IsSite :
    (edge_ids seen : List String) (r : Value)
    → site_error edge_ids seen r ≡ none
    → IsSite edge_ids (site_of r) × (holds_text (name_of (member "tier_id" r)) seen ≡ false)
unfolding site_error
site_error-IsSite edge_ids seen r h = elim (Option-cases (check_lat_lon r)) [
  | inl e ↦ (
    record {
      tier = ground arith;
      place = check_lat_lon-IsPlace r e;
      label = label_of-is_named (member "label" r);
      apart = ground arith;
    },
    ground arith,
  )
  | inr (x, e) ↦ absurd (ground arith)
]

pub Parsed-cases {ℓ} :
    {A : Type ℓ} (p : Parsed A) → ((e : SiteError) × (p ≡ fail e)) ⊎ ((a : A) × (p ≡ ok a))
Parsed-cases (fail e) = inl (e, refl)
Parsed-cases (ok a) = inr (a, refl)

parse_fobs-AreFobs :
    (i : ℕ) (seen : List String) (rs : List Value) (fobs : List Fob)
    → parse_fobs i seen rs ≡ ok fobs
    → AreFobs seen fobs
unfolding parse_fobs
parse_fobs-AreFobs i seen [] fobs h =
    let same : [] ≡ fobs = ground arith in subst (AreFobs seen) same tt
parse_fobs-AreFobs i seen (r ∷ rs) fobs h =
    let k = name_of (member "edge_id" r) in
    elim (Option-cases (fob_error seen r)) [
      | inl e ↦ elim (Parsed-cases (parse_fobs (suc i) (k ∷ seen) rs)) [
        | inl (x, p) ↦ absurd (ground arith)
        | inr (rest, p) ↦
            let (own, new) = fob_error-IsFob seen r e in
            let same : fob_of r ∷ rest ≡ fobs = ground arith in
            subst (AreFobs seen) same (own, new, parse_fobs-AreFobs (suc i) (k ∷ seen) rs rest p)
      ]
      | inr (x, e) ↦ absurd (ground arith)
    ]

parse_sites-AreSites :
    (i : ℕ) (edge_ids seen : List String) (rs : List Value) (sites : List TierSite)
    → parse_sites i edge_ids seen rs ≡ ok sites
    → AreSites edge_ids seen sites
unfolding parse_sites
parse_sites-AreSites i edge_ids seen [] sites h =
    let same : [] ≡ sites = ground arith in subst (AreSites edge_ids seen) same tt
parse_sites-AreSites i edge_ids seen (r ∷ rs) sites h =
    let k = name_of (member "tier_id" r) in
    elim (Option-cases (site_error edge_ids seen r)) [
      | inl e ↦ elim (Parsed-cases (parse_sites (suc i) edge_ids (k ∷ seen) rs)) [
        | inl (x, p) ↦ absurd (ground arith)
        | inr (rest, p) ↦
            let (own, new) = site_error-IsSite edge_ids seen r e in
            let same : site_of r ∷ rest ≡ sites = ground arith in
            subst (AreSites edge_ids seen) same
              (own, new, parse_sites-AreSites (suc i) edge_ids (k ∷ seen) rs rest p)
      ]
      | inr (x, e) ↦ absurd (ground arith)
    ]

-- the two lists of an accepted table
after_rows-IsTable :
    (root : Value) (rows : Parsed (List Value)) (t : SiteTable)
    → after_rows root rows ≡ ok t
    → IsTable t
after_rows-IsTable root (fail e) t h = absurd (ground arith)
after_rows-IsTable root (ok rows) t h = elim (Parsed-cases (parse_fobs 0 [] rows)) [
  | inl (x, p) ↦ absurd (ground arith)
  | inr (fobs, p) ↦ elim (Parsed-cases (site_rows (member "tier_sites" root))) [
    | inl (x, q) ↦ absurd (ground arith)
    | inr (srows, q) ↦ elim (Parsed-cases (parse_sites 0 (edge_ids_of fobs) [] srows)) [
      | inl (x, r) ↦ absurd (ground arith)
      | inr (sites, r) ↦
          let same : record { fobs = fobs; tier_sites = sites } ≡ t = ground arith in
          subst IsTable same (record {
            fobs = parse_fobs-AreFobs 0 [] rows fobs p;
            sites = parse_sites-AreSites 0 (edge_ids_of fobs) [] srows sites r;
          })
    ]
  ]
]

-- An accepted table is well-formed: every id is a text that is not empty, every position lies on the
-- globe, no two FOBs share an edge id and no two sites a tier id, no site has the id of a FOB, and no
-- label is empty.
pub parse_site_table-IsTable :
    (raw : Value) (t : SiteTable) → parse_site_table raw ≡ ok t → IsTable t
unfolding parse_site_table
parse_site_table-IsTable raw t h =
    after_rows-IsTable (root_of raw) (fob_rows (root_of raw)) t (ground arith)

-- ===== src/SiteTable/Printed.antt =====
-- A well-formed table, written out as the file has it, is read back.
use openddil_demo.Base.{
  ℕ, suc, String, ◌≡◌, refl, ap, true, false, Option, none, some, List, [], ◌∷◌, arith,
}
use openddil_demo.Base.Sort.{holds_text}
use openddil_demo.Json.{
  has_member, Value, Entries, Elements, stop, element, done, entry, text, num, array, object, items,
  lookup, member,
}
use openddil_demo.SiteTable.{
  Fob, TierSite, SiteTable, ok, name_of, check_lat_lon, fob_error, fob_of, parse_fobs, site_error,
  site_of, parse_sites, edge_ids_of, steps_of, fob_rows, parse_site_table, label_of, is_label,
}
use openddil_demo.SiteTable.Accepted.{IsFob, IsSite, AreFobs, AreSites, IsTable, is_named}

abbrev label_entry : Option String → Entries
label_entry none = done
label_entry (some s) = entry "label" (text s) done

abbrev pub fob_value : Fob → Value
fob_value f = object (
    entry "edge_id" (text f.edge_id) (
      entry "region_id" (text f.region_id)
        (entry "lat" (num f.lat) (entry "lon" (num f.lon) (label_entry f.label)))))

abbrev pub site_value : TierSite → Value
site_value s = object (
    entry "tier_id" (text s.tier_id)
      (entry "lat" (num s.lat) (entry "lon" (num s.lon) (label_entry s.label))))

abbrev pub fob_values : List Fob → Elements
fob_values [] = stop
fob_values (f ∷ fobs) = element (fob_value f) (fob_values fobs)

abbrev pub site_values : List TierSite → Elements
site_values [] = stop
site_values (s ∷ sites) = element (site_value s) (site_values sites)

abbrev pub table_value : SiteTable → Value
table_value t = object (
    entry "fobs" (array (fob_values t.fobs))
      (entry "tier_sites" (array (site_values t.tier_sites)) done))

label_of-label_entry :
    (o : Option String) → is_named o ≡ true → label_of (lookup "label" (label_entry o)) ≡ o
unfolding lookup
label_of-label_entry none h = refl
label_of-label_entry (some s) h = ground arith

is_label-label_entry : (o : Option String) → is_label (lookup "label" (label_entry o)) ≡ true
unfolding lookup
is_label-label_entry none = refl
is_label-label_entry (some s) = refl

fob_error-fob_value :
    (seen : List String) (f : Fob)
    → IsFob f
    → holds_text f.edge_id seen ≡ false
    → fob_error seen (fob_value f) ≡ none
unfolding fob_error check_lat_lon lookup
fob_error-fob_value seen f h new =
    ground (arith, h.edge, h.region, h.place, is_label-label_entry f.label)

fob_of-fob_value : (f : Fob) → IsFob f → fob_of (fob_value f) ≡ f
unfolding lookup
fob_of-fob_value f h = ap (λ o. record f { label = o }) (label_of-label_entry f.label h.label)

site_error-site_value :
    (edge_ids seen : List String) (s : TierSite)
    → IsSite edge_ids s
    → holds_text s.tier_id seen ≡ false
    → site_error edge_ids seen (site_value s) ≡ none
unfolding site_error check_lat_lon lookup
site_error-site_value edge_ids seen s h new =
    ground (arith, h.tier, h.place, h.apart, is_label-label_entry s.label)

site_of-site_value :
    (edge_ids : List String) (s : TierSite) → IsSite edge_ids s → site_of (site_value s) ≡ s
unfolding lookup
site_of-site_value edge_ids s h =
    ap (λ o. record s { label = o }) (label_of-label_entry s.label h.label)

parse_fobs_step :
    (i : ℕ) (seen : List String) (r : Value) (rs : List Value) (f : Fob) (fobs : List Fob)
    → fob_error seen r ≡ none
    → fob_of r ≡ f
    → parse_fobs (suc i) (name_of (member "edge_id" r) ∷ seen) rs ≡ ok fobs
    → parse_fobs i seen (r ∷ rs) ≡ ok (f ∷ fobs)
unfolding parse_fobs
parse_fobs_step i seen r rs f fobs none_wrong same rest =
    rw (none_wrong, rest, parse_fobs) (ap (λ g. ok (g ∷ fobs)) same)

parse_sites_step :
    (i : ℕ) (edge_ids seen : List String) (r : Value) (rs : List Value) (s : TierSite)
    (sites : List TierSite)
    → site_error edge_ids seen r ≡ none
    → site_of r ≡ s
    → parse_sites (suc i) edge_ids (name_of (member "tier_id" r) ∷ seen) rs ≡ ok sites
    → parse_sites i edge_ids seen (r ∷ rs) ≡ ok (s ∷ sites)
unfolding parse_sites
parse_sites_step i edge_ids seen r rs s sites none_wrong same rest =
    rw (none_wrong, rest, parse_sites) (ap (λ g. ok (g ∷ sites)) same)

parse_fobs-fob_values :
    (i : ℕ) (seen : List String) (fobs : List Fob)
    → AreFobs seen fobs
    → parse_fobs i seen (items (fob_values fobs)) ≡ ok fobs
unfolding parse_fobs lookup
parse_fobs-fob_values i seen [] h = refl
parse_fobs-fob_values i seen (f ∷ fobs) (h, new, rest) =
    parse_fobs_step i seen (fob_value f) (items (fob_values fobs)) f fobs
      (fob_error-fob_value seen f h new) (fob_of-fob_value f h)
      (parse_fobs-fob_values (suc i) (f.edge_id ∷ seen) fobs rest)

parse_sites-site_values :
    (i : ℕ) (edge_ids seen : List String) (sites : List TierSite)
    → AreSites edge_ids seen sites
    → parse_sites i edge_ids seen (items (site_values sites)) ≡ ok sites
unfolding parse_sites lookup
parse_sites-site_values i edge_ids seen [] h = refl
parse_sites-site_values i edge_ids seen (s ∷ sites) (h, new, rest) =
    parse_sites_step i edge_ids seen (site_value s) (items (site_values sites)) s sites
      (site_error-site_value edge_ids seen s h new) (site_of-site_value edge_ids s h)
      (parse_sites-site_values (suc i) edge_ids (s.tier_id ∷ seen) sites rest)

-- A well-formed table that is written out as a mapping of its two lists is read back as it was.
pub parse_site_table-table_value :
    (t : SiteTable) → IsTable t → parse_site_table (table_value t) ≡ ok t
unfolding parse_site_table fob_rows steps_of has_member lookup
parse_site_table-table_value t h =
    rw
      (
        parse_fobs-fob_values 0 [] t.fobs h.fobs,
        parse_sites-site_values 0 (edge_ids_of t.fobs) [] t.tier_sites h.sites,
      )
      refl

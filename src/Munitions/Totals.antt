-- ===== src/Munitions/Totals.antt =====
-- The rollups neither lose nor invent a figure.
use openddil_demo.Base.{
  ℕ, String, ◌≡◌, refl, ◌∙◌, sym, ap, Bool, Option, none, some, List, [], ◌∷◌, arith, sum_by,
  length, filter, any, all, not, eqb, ◌≤◌,
}
use openddil_demo.Base.Sort.{sum_by-sort_by, text_le, sort_by, any-sort_by, length-sort_by}
use openddil_demo.Move.{is_absent}
use openddil_demo.Base.Groups.{group_sum, sorted_groups, sum_by-map, sum_by-sorted_groups}
use openddil_demo.Munitions.{
  LauncherLedgerRow, MunitionTypeLedgerRow, type_row, rollup, is_undeclared,
}
use openddil_demo.Munitions.Launchers.{LedgerInputs, launchers_of}
use openddil_demo.Munitions.Build.{
  RegionLedger, region_key, region_ledger, ledger_of, build_munitions_ledger, all_rows, in_scope,
}

-- the figures that a rollup adds up
pub data Figure : Type 0 where
  expended in_flight unresolved received fired : Figure

abbrev pub row_figure : Figure → LauncherLedgerRow → ℕ
row_figure expended r = r.expended.value
row_figure in_flight r = r.in_flight.value
row_figure unresolved r = r.unresolved.value
row_figure received r = r.received.value
row_figure fired r = r.fired.value

abbrev pub type_figure : Figure → MunitionTypeLedgerRow → ℕ
type_figure expended t = t.expended
type_figure in_flight t = t.in_flight
type_figure unresolved t = t.unresolved
type_figure received t = t.received
type_figure fired t = t.fired

abbrev by_launcher : LauncherLedgerRow → LauncherLedgerRow → Bool
by_launcher a b = text_le a.launcher_asset_id b.launcher_asset_id

type_figure-type_row :
    (fig : Figure) (as_of : String) (g : String × List LauncherLedgerRow)
    → type_figure fig (type_row as_of g) ≡ group_sum (row_figure fig) g
unfolding type_row
type_figure-type_row expended as_of (k, rows) =
    sum_by-sort_by by_launcher (row_figure expended) rows
type_figure-type_row in_flight as_of (k, rows) =
    sum_by-sort_by by_launcher (row_figure in_flight) rows
type_figure-type_row unresolved as_of (k, rows) =
    sum_by-sort_by by_launcher (row_figure unresolved) rows
type_figure-type_row received as_of (k, rows) =
    sum_by-sort_by by_launcher (row_figure received) rows
type_figure-type_row fired as_of (k, rows) = sum_by-sort_by by_launcher (row_figure fired) rows

abbrev by_munition : LauncherLedgerRow → String
by_munition r = r.munition_key

-- A rollup adds up to its rows: each figure summed over its types is that figure summed over the rows.
pub rollup_totals :
    (fig : Figure) (rows : List LauncherLedgerRow) (as_of : String)
    → sum_by (type_figure fig) (rollup rows as_of) ≡ sum_by (row_figure fig) rows
unfolding rollup
rollup_totals fig rows as_of =
    sum_by-map (type_row as_of) (type_figure fig) (group_sum (row_figure fig))
      (type_figure-type_row fig as_of) (sorted_groups by_munition rows)
    ∙ sum_by-sorted_groups by_munition (row_figure fig) rows

abbrev pub region_figure : Figure → RegionLedger → ℕ
region_figure fig g = sum_by (type_figure fig) g.by_type

region_figure-region_ledger :
    (fig : Figure) (as_of : String) (g : String × List LauncherLedgerRow)
    → region_figure fig (region_ledger as_of g) ≡ group_sum (row_figure fig) g
region_figure-region_ledger fig as_of (k, rows) = rollup_totals fig rows as_of

-- the regions of rows that are split by region add up to their types
ledger_of_regions :
    (fig : Figure) (region : Option String) (as_of : String) (rows : List LauncherLedgerRow)
    (count : ℕ)
    → region ≡ none
    → sum_by (region_figure fig) (ledger_of region as_of rows count).by_region
      ≡ sum_by (type_figure fig) (rollup rows as_of)
unfolding ledger_of
ledger_of_regions fig none as_of rows count e =
    sum_by-map (region_ledger as_of) (region_figure fig) (group_sum (row_figure fig))
      (region_figure-region_ledger fig as_of) (sorted_groups region_key rows)
    ∙ (sum_by-sorted_groups region_key (row_figure fig) rows ∙ sym (rollup_totals fig rows as_of))
ledger_of_regions fig (some r) as_of rows count e = absurd (ground arith)

-- In the ledger of the theater each figure, summed over the types of all regions, is its sum over the
-- types, which is its sum over the rows of the launchers in scope.
pub build_munitions_ledger_totals :
    (fig : Figure) (date_parse : String → Option ℕ) (to_iso : ℕ → String) (args : LedgerInputs)
    → args.region_id ≡ none
    → (sum_by (region_figure fig) (build_munitions_ledger date_parse to_iso args).by_region
        ≡ sum_by (type_figure fig) (build_munitions_ledger date_parse to_iso args).by_type)
      × (sum_by (type_figure fig) (build_munitions_ledger date_parse to_iso args).by_type
          ≡ sum_by (row_figure fig) (
              all_rows date_parse to_iso args
                (in_scope args.region_id (launchers_of date_parse args))))
unfolding build_munitions_ledger ledger_of
build_munitions_ledger_totals fig date_parse to_iso args theater =
    let scoped = in_scope args.region_id (launchers_of date_parse args) in
    let rows = all_rows date_parse to_iso args scoped in
    let as_of = to_iso args.as_of_ms in
    (
      ledger_of_regions fig args.region_id as_of rows (length scoped) theater,
      rollup_totals fig rows as_of,
    )

filter-bound :
    (p : LauncherLedgerRow → Bool) (rows : List LauncherLedgerRow)
    → length (filter p rows) ≤ length rows
filter-bound p [] = omega arith
filter-bound p (r ∷ rows) = ground (arith, filter-bound p rows)

all-filter :
    (p : LauncherLedgerRow → Bool) (rows : List LauncherLedgerRow)
    → eqb (length (filter p rows)) (length rows) ≡ all p rows
all-filter p [] = ground arith
all-filter p (r ∷ rows) = ground (arith, all-filter p rows, filter-bound p rows)

all-any :
    (p : LauncherLedgerRow → Bool) (rows : List LauncherLedgerRow)
    → all p rows ≡ not (any (λ r. not (p r)) rows)
all-any p [] = refl
all-any p (r ∷ rows) = ground (arith, all-any p rows)

-- A type has a loaded figure and one of what remains exactly when one of its launchers declares both;
-- it counts every launcher's row.
pub type_row_loaded :
    (as_of key : String) (rows : List LauncherLedgerRow)
    → (is_absent (type_row as_of (key, rows)).loaded ≡ not (any (λ r. not (is_undeclared r)) rows))
      × (is_absent (type_row as_of (key, rows)).remaining
          ≡ not (any (λ r. not (is_undeclared r)) rows))
      × ((type_row as_of (key, rows)).launchers ≡ length rows)
unfolding type_row is_absent
type_row_loaded as_of key rows =
    let sorted = sort_by by_launcher rows in
    let declared =
      all-filter is_undeclared sorted
      ∙ (all-any is_undeclared sorted
          ∙ ap not (any-sort_by by_launcher (λ r. not (is_undeclared r)) rows)) in
    (ground arith, ground arith, length-sort_by by_launcher rows)

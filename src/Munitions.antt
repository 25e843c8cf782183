-- ===== src/Munitions.antt =====
-- frontend/src/lib/munitionsLedger.ts: the ledger of munitions, per launcher and per type. This file
-- has the rows and their rollup by type; Launchers has the launchers, Build the whole ledger.
pub mod Launchers
pub mod Build
pub mod Totals
mod Tests
use openddil_demo.Base.{
  ℕ, ◌+◌, String, Bool, true, false, ◌||◌, Option, none, some, List, [], ◌∷◌, ◌++◌, map, ◌==◌, ltb,
  eqb, if◌then◌else◌, sum_by, length, filter, ◌⧺◌, decimal,
}
use openddil_demo.Base.Int.{ℤ, ◌+ℤ◌, pos}
use openddil_demo.Base.Groups.{sorted_groups}
use openddil_demo.Base.Sort.{sort_by, text_le}
use openddil_demo.Move.{Known, Maybe, known, absent, is_absent}

pub record LauncherLedgerRow : Type 0 where
  pub launcher_asset_id : String
  pub variant : Option String
  pub region_id : Option String
  pub munition_key : String
  pub loaded : Maybe ℕ
  pub expended : Known ℕ
  pub remaining : Maybe ℤ
  pub in_flight : Known ℕ
  pub unresolved : Known ℕ
  pub received : Known ℕ
  pub fired : Known ℕ

pub record MunitionTypeLedgerRow : Type 0 where
  pub munition_key : String
  pub launchers : ℕ
  pub undeclared_launchers : ℕ
  pub loaded : Maybe ℕ
  pub remaining : Maybe ℤ
  pub expended : ℕ
  pub in_flight : ℕ
  pub unresolved : ℕ
  pub received : ℕ
  pub fired : ℕ
  pub rows : List LauncherLedgerRow

abbrev pub is_undeclared : LauncherLedgerRow → Bool
is_undeclared r = is_absent r.loaded || is_absent r.remaining

abbrev pub loaded_of : LauncherLedgerRow → ℕ
loaded_of r = elim r.loaded [
  | absent why ↦ 0
  | known k ↦ elim r.remaining [ absent why ↦ 0 | known m ↦ k.value ]
]

abbrev pub remaining_of : LauncherLedgerRow → ℤ
remaining_of r = elim r.loaded [
  | absent why ↦ pos 0
  | known k ↦ elim r.remaining [ absent why ↦ pos 0 | known m ↦ m.value ]
]

abbrev pub sum_ℤ : List LauncherLedgerRow → ℤ
sum_ℤ [] = pos 0
sum_ℤ (r ∷ rs) = remaining_of r +ℤ sum_ℤ rs

abbrev pub no_declared : String
no_declared = "no launcher of this type has a declared load"

abbrev pub sum_source : ℕ → String
sum_source undeclared =
    "sum of declared launchers"
    ⧺ (if ltb 0 undeclared then "; " ⧺ decimal undeclared ⧺ " undeclared not counted" else "")

-- `as_of` is the instant of the ledger as a text
unfoldable pub type_row : String → String × List LauncherLedgerRow → MunitionTypeLedgerRow
unfolding is_absent
type_row as_of (key, rows) =
    let sorted =
      sort_by (λ (a b : LauncherLedgerRow). text_le a.launcher_asset_id b.launcher_asset_id) rows in
    let undeclared = length (filter is_undeclared sorted) in
    let all_undeclared = eqb undeclared (length sorted) in
    record {
      munition_key = key;
      launchers = length sorted;
      undeclared_launchers = undeclared;
      loaded =
          if all_undeclared
          then absent no_declared
          else known (record {
            value = sum_by loaded_of sorted;
            source = sum_source undeclared;
            at = some as_of;
          });
      remaining =
          if all_undeclared
          then absent no_declared
          else known
              (record { value = sum_ℤ sorted; source = sum_source undeclared; at = some as_of });
      expended = sum_by (λ (r : LauncherLedgerRow). r.expended.value) sorted;
      in_flight = sum_by (λ (r : LauncherLedgerRow). r.in_flight.value) sorted;
      unresolved = sum_by (λ (r : LauncherLedgerRow). r.unresolved.value) sorted;
      received = sum_by (λ (r : LauncherLedgerRow). r.received.value) sorted;
      fired = sum_by (λ (r : LauncherLedgerRow). r.fired.value) sorted;
      rows = sorted;
    }

unfoldable pub rollup : List LauncherLedgerRow → String → List MunitionTypeLedgerRow
unfolding sorted_groups type_row
rollup rows as_of =
    map (type_row as_of) (sorted_groups (λ (r : LauncherLedgerRow). r.munition_key) rows)

-- ===== src/Move/Ledger.antt =====
-- `replayLedger` of frontend/src/lib/movePanel.ts: what a launcher fired and received, replayed in the
-- order of time up to an instant.
pub mod Totals
pub mod Peak
pub mod Keys
use openddil_demo.Base.{
  ℕ, ◌+◌, ◌-◌, String, Bool, true, false, ◌||◌, ◌&&◌, Option, none, some, List, [], ◌∷◌, ◌++◌, map,
  ◌==◌, filter, ltb, leb, eqb, if◌then◌else◌, or_else, ◌⧺◌,
}
use openddil_demo.Base.Int.{ℤ, sub_ℕ}
use openddil_demo.Base.Dict
use openddil_demo.Base.Dict.{Dict}
use openddil_demo.Base.Sort.{sort_by, distinct, text_le}
use openddil_demo.Move.{Known, Maybe, known, absent, ms, at_most}

pub record LedgerFire : Type 0 where
  pub launched_at : String
  pub munition_type : String
  pub quantity : ℕ

pub record LedgerResupply : Type 0 where
  pub received_at : String
  pub munition_type : String
  pub quantity : ℕ

pub record LedgerDeclared : Type 0 where
  pub label : String
  pub asset : Option (Dict ℕ)
  pub variant : Option (Dict ℕ)

pub record LedgerRow : Type 0 where
  pub munition_key : String
  pub fired : Known ℕ
  pub received : Known ℕ
  pub expended : Known ℕ
  pub remaining : Maybe ℤ

pub data Kind : Type 0 where
  fire resupply : Kind

pub record Ev : Type 0 where
  pub t : ℕ
  pub kind : Kind
  pub key : String
  pub q : ℕ

-- an event in time; one whose time cannot be read is left out
abbrev pub in_time : ℕ → Option ℕ → Kind → String → ℕ → List Ev
in_time as_of none kind key q = []
in_time as_of (some t) kind key q =
    if leb t as_of then record { t = t; kind = kind; key = key; q = q } ∷ [] else []

unfoldable pub fire_events : (String → Option ℕ) → ℕ → List LedgerFire → List Ev
fire_events date_parse as_of [] = []
fire_events date_parse as_of (f ∷ fires) =
    in_time as_of (ms date_parse (some f.launched_at)) fire f.munition_type f.quantity
    ++ fire_events date_parse as_of fires

unfoldable pub resupply_events : (String → Option ℕ) → ℕ → List LedgerResupply → List Ev
resupply_events date_parse as_of [] = []
resupply_events date_parse as_of (r ∷ resupplies) =
    in_time as_of (ms date_parse (some r.received_at)) resupply r.munition_type r.quantity
    ++ resupply_events date_parse as_of resupplies

abbrev pub kind_no : Kind → ℕ
kind_no fire = 0
kind_no resupply = 1

-- `a.t - b.t || a.kind - b.kind` is not positive
abbrev pub ev_le : Ev → Ev → Bool
ev_le a b = ltb a.t b.t || (eqb a.t b.t && leb (kind_no a.kind) (kind_no b.kind))

unfoldable pub events : (String → Option ℕ) → ℕ → List LedgerFire → List LedgerResupply → List Ev
unfolding fire_events resupply_events
events date_parse as_of fires resupplies =
    sort_by ev_le
      (fire_events date_parse as_of fires ++ resupply_events date_parse as_of resupplies)

pub record Tally : Type 0 where
  pub expended : ℕ
  pub fired : ℕ
  pub received : ℕ

abbrev pub zero_tally : Tally
zero_tally = record { expended = 0; fired = 0; received = 0 }

-- `Math.max(0, expended - q)` is the truncated difference
abbrev pub count_one : Kind → ℕ → Tally → Tally
count_one fire q a = record a { expended = a.expended + q; fired = a.fired + q }
count_one resupply q a = record a { expended = a.expended - q; received = a.received + q }

unfoldable pub tally : String → List Ev → Tally → Tally
tally key [] a = a
tally key (e ∷ es) a = tally key es (if e.key == key then count_one e.kind e.q a else a)

abbrev pub keys_of : Option (Dict ℕ) → List String
keys_of none = []
keys_of (some d) = Dict.keys d

unfoldable pub ledger_keys : LedgerDeclared → List LedgerFire → List LedgerResupply → List String
ledger_keys declared fires resupplies = sort_by text_le (
    distinct (
      keys_of declared.asset
      ++ (keys_of declared.variant
          ++ (map (λ (f : LedgerFire). f.munition_type) fires
              ++ map (λ (r : LedgerResupply). r.munition_type) resupplies))))

abbrev pub load_in : Option (Dict ℕ) → String → Option ℕ
load_in none key = none
load_in (some d) key = Dict.get key d

-- `declared.asset?.[key] ?? declared.variant?.[key]`
abbrev pub declared_load : LedgerDeclared → String → Option ℕ
declared_load declared key = elim (load_in declared.asset key) [
  | none ↦ load_in declared.variant key
  | some d ↦ some d
]

abbrev pub load_source : Option ℕ → String
load_source none = "declared variant load minus expended"
load_source (some d) = "declared asset load minus expended"

abbrev pub replay_source : String
replay_source = "replay of effector_launch and effector_resupply"

-- the row of one key; `iso` is the instant of the ledger as a text
unfoldable pub ledger_row : LedgerDeclared → Option String → List Ev → String → LedgerRow
unfolding tally
ledger_row declared iso es key =
    let a = tally key es zero_tally in
    record {
      munition_key = key;
      fired = record { value = a.fired; source = replay_source; at = iso };
      received = record { value = a.received; source = replay_source; at = iso };
      expended = record { value = a.expended; source = replay_source; at = iso };
      remaining = elim (declared_load declared key) [
        | none ↦ absent ("no declared load for " ⧺ declared.label)
        | some d ↦ known (record {
          value = sub_ℕ d a.expended;
          source = load_source (load_in declared.asset key);
          at = iso;
        })
      ];
    }

-- `to_iso` stands for `new Date(ms).toISOString()`
unfoldable pub replay_ledger :
    (String → Option ℕ)
    → (ℕ → String)
    → LedgerDeclared
    → List LedgerFire
    → List LedgerResupply
    → ℕ
    → List LedgerRow
unfolding ledger_row ledger_keys events
replay_ledger date_parse to_iso declared fires resupplies as_of =
    map (ledger_row declared (some (to_iso as_of)) (events date_parse as_of fires resupplies))
      (ledger_keys declared fires resupplies)

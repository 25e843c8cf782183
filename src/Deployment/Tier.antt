-- ===== src/Deployment/Tier.antt =====
-- Which tier an instance is: TierConfig and parseTier of frontend/src/deployment.ts. A rejection is
-- `none` here; the source also writes a line to the console.
use openddil_demo.Base.{String, Bool, true, false, Option, none, some, ◌==◌, if◌then◌else◌, trim}
use openddil_demo.Json.{Value, null, member, as_text, as_bool, is_nullish}

pub data ScopeColumn : Type 0 where
  edge_id region_id : ScopeColumn

pub record TierScope : Type 0 where
  pub column : ScopeColumn
  pub value : String

pub record TierConfig : Type 0 where
  pub id : String
  pub label : Option String
  pub scope : Option TierScope
  pub has_children : Bool
  pub parent : Option String

abbrev pub implicit_root : TierConfig
implicit_root = record {
  id = "root";
  label = some "hq";
  scope = none;
  has_children = true;
  parent = none;
}

-- `typeof x === 'string' && x.trim() ? x.trim() : undefined`
unfoldable pub trimmed : Value → Option String
trimmed v = elim (as_text v) [ none ↦ none | some s ↦ if trim s == "" then none else some (trim s) ]

-- a text that is not blank, as it was written
abbrev pub unblank : Value → Option String
unblank v = elim (as_text v) [ none ↦ none | some s ↦ if trim s == "" then none else some s ]

abbrev pub column_of : Value → Option ScopeColumn
column_of v = elim (as_text v) [
  | none ↦ none
  | some s ↦
      if s == "edge_id" then some edge_id else if s == "region_id" then some region_id else none
]

abbrev pub is_null : Value → Bool
is_null null = true
is_null _ = false

-- `none` for a scope that is rejected, `some none` for one that is null
unfoldable pub scope_of : Value → Option (Option TierScope)
scope_of v = if is_null v then some none else elim (column_of (member "column" v)) [
  | none ↦ none
  | some c ↦ elim (unblank (member "value" v)) [
    | none ↦ none
    | some s ↦ some (some (record { column = c; value = s }))
  ]
]

unfoldable pub parse_tier : Value → Option TierConfig
unfolding trimmed scope_of
parse_tier raw = if is_nullish raw then none else elim (trimmed (member "id" raw)) [
  | none ↦ none
  | some id ↦ elim (as_bool (member "has_children" raw)) [
    | none ↦ none
    | some has_children ↦ elim (scope_of (member "scope" raw)) [
      | none ↦ none
      | some scope ↦ some (record {
        id = id;
        label = trimmed (member "label" raw);
        scope = scope;
        has_children = has_children;
        parent = trimmed (member "parent" raw);
      })
    ]
  ]
]

-- ===== src/Deployment/Moves.antt =====
-- The declared inputs of the move panel: parseMoveInputs of frontend/src/deployment.ts and the parsers
-- that it calls. A bad entry is dropped alone; the source also writes a line to the console.
use Prim.Native.Char.{code}
use openddil_demo.Base.{
  ℕ, zero, suc, String, Bool, true, false, not, ◌&&◌, ◌||◌, Option, none, some, List, [], ◌∷◌, ◌==◌,
  eqb, leb, if◌then◌else◌, find, any,
}
use openddil_demo.Base.Dict
use openddil_demo.Base.Dict.{Dict, is_some}
use openddil_demo.Json.{
  Value, Entries, Decimal, undefined, done, entry, object, member, as_text, as_num, as_list, is_map,
  is_nonneg, is_integer,
}
use openddil_demo.Deployment.Tier.{trimmed}
use openddil_demo.Deployment.Lists.{kept}

pub record UnitQuantity : Type 0 where
  pub value : Decimal
  pub unit : String

pub record MoveStandard : Type 0 where
  pub march_order_s : Option Decimal
  pub emplace_s : Option Decimal
  pub fuel_tank : Option UnitQuantity
  pub fuel_burn_per_km : Option UnitQuantity

pub record MoveUnit : Type 0 where
  pub id : String
  pub label : String
  pub members : List String
  pub planned_move_km : Option Decimal

pub record DeclaredLoadConfig : Type 0 where
  pub asset : Dict (Dict Decimal)
  pub variant : Dict (Dict Decimal)

pub record MoveInputs : Type 0 where
  pub declared_load : DeclaredLoadConfig
  pub standards : Dict MoveStandard
  pub units : List MoveUnit

abbrev pub is_digit : ℕ → Bool
is_digit c = leb 48 c && leb c 57

-- digits, at least one, in parts that dots part; `dots` are to come, and `started` tells whether the
-- part at hand has a digit
unfoldable pub key_from : ℕ → Bool → String → Bool
key_from dots started String.[] = eqb dots 0 && started
key_from zero started (String.◌∷◌ c s) = is_digit (code c) && key_from zero true s
key_from (suc dots) started (String.◌∷◌ c s) =
    (is_digit (code c) && key_from (suc dots) true s)
    || (eqb (code c) 46 && started && key_from dots false s)

-- seven parts
unfoldable pub is_munition_key : String → Bool
unfolding key_from
is_munition_key s = key_from 6 false s

-- a finite number that is not negative
unfoldable pub non_neg : Value → Option Decimal
non_neg v = elim (as_num v) [ none ↦ none | some d ↦ if is_nonneg d then some d else none ]

abbrev pub count_of : String → Value → Option Decimal
count_of key v = elim (non_neg v) [
  | none ↦ none
  | some d ↦ if is_munition_key key && is_integer d then some d else none
]

-- the loop over `Object.entries`: the accepted members, each put under its key
unfoldable pub kept_members {ℓ} :
    {A : Type ℓ} → (String → Value → Option A) → Entries → Dict A → Dict A
kept_members parse done out = out
kept_members parse (entry k v fs) out =
    kept_members parse fs (elim (parse k v) [ none ↦ out | some a ↦ Dict.put k a out ])

-- of a value that is not a mapping nothing is kept
abbrev pub kept_mapping {ℓ} : {A : Type ℓ} → (String → Value → Option A) → Value → Dict A
kept_mapping parse (object fs) = kept_members parse fs []
kept_mapping parse _ = []

abbrev pub munitions_of : String → Value → Option (Dict Decimal)
munitions_of key v = if is_map v then some (kept_mapping count_of v) else none

unfoldable pub parse_load_block : Value → Dict (Dict Decimal)
unfolding kept_members is_munition_key non_neg
parse_load_block raw = kept_mapping munitions_of raw

unfoldable pub parse_unit_quantity : Value → Option UnitQuantity
unfolding non_neg trimmed
parse_unit_quantity raw = if not (is_map raw) then none else elim (non_neg (member "value" raw)) [
  | none ↦ none
  | some value ↦ elim (trimmed (member "unit" raw)) [
    | none ↦ none
    | some unit ↦ some (record { value = value; unit = unit })
  ]
]

abbrev pub standard_of : String → Value → Option MoveStandard
standard_of variant s =
    if is_map s
    then some (record {
      march_order_s = non_neg (member "marchOrderS" s);
      emplace_s = non_neg (member "emplaceS" s);
      fuel_tank = parse_unit_quantity (member "fuelTank" s);
      fuel_burn_per_km = parse_unit_quantity (member "fuelBurnPerKm" s);
    })
    else none

unfoldable pub parse_standards : Value → Dict MoveStandard
unfolding kept_members non_neg parse_unit_quantity
parse_standards raw = kept_mapping standard_of raw

-- `none` if one of the members is not a text
unfoldable pub all_texts : List Value → Option (List String)
all_texts [] = some []
all_texts (v ∷ vs) =
    let rest = all_texts vs in
    elim (as_text v) [ none ↦ none | some s ↦ elim rest [ none ↦ none | some ss ↦ some (s ∷ ss) ] ]

abbrev pub members_of : Value → Option (List String)
members_of v = elim (as_list v) [ none ↦ none | some vs ↦ all_texts vs ]

unfoldable pub unit_of : Value → Option MoveUnit
unfolding non_neg trimmed all_texts
unit_of u = elim (trimmed (member "id" u)) [
  | none ↦ none
  | some id ↦ elim (trimmed (member "label" u)) [
    | none ↦ none
    | some label ↦ elim (members_of (member "members" u)) [
      | none ↦ none
      | some members ↦ some (record {
        id = id;
        label = label;
        members = members;
        planned_move_km = non_neg (member "plannedMoveKm" u);
      })
    ]
  ]
]

unfoldable pub parse_units : Value → List MoveUnit
unfolding kept unit_of
parse_units raw = elim (as_list raw) [ none ↦ [] | some vs ↦ kept unit_of vs ]

abbrev pub is_undefined : Value → Bool
is_undefined undefined = true
is_undefined _ = false

unfoldable pub parse_move_inputs : Value → Option MoveInputs
unfolding parse_load_block parse_standards parse_units
parse_move_inputs raw =
    let load = member "declaredLoad" (member "effectors" raw) in
    let mv = member "movement" raw in
    if is_undefined load && is_undefined mv
    then none
    else some (record {
      declared_load = record {
        asset = parse_load_block (member "asset" load);
        variant = parse_load_block (member "variant" load);
      };
      standards = parse_standards (member "standards" mv);
      units = parse_units (member "units" mv);
    })

-- the declared unit that an asset is a member of
abbrev pub unit_for_asset : Option MoveInputs → String → Option MoveUnit
unit_for_asset none asset_id = none
unit_for_asset (some m) asset_id =
    find (λ (u : MoveUnit). any (λ a. a == asset_id) u.members) m.units

-- ===== src/Deployment/Panes.antt =====
-- The panes and the outside link that frontend/src/deployment.ts configures: parseEgressPane,
-- parseManualQa, parseReleasedRecordsPanes and parseCortex.
use Prim.Native.Char.{Char, code}
use openddil_demo.Base.{
  has_prefix, ℕ, String, Bool, true, false, not, ◌&&◌, ◌||◌, Option, none, some, List, [], ◌∷◌,
  ◌==◌, eqb, leb, if◌then◌else◌, trim, length,
}
use openddil_demo.Base.Sort.{utf16}
use openddil_demo.Json.{Value, undefined, member, as_text, as_bool, as_list, is_map, has_member}
use openddil_demo.Deployment.Tier.{trimmed, unblank}
use openddil_demo.Deployment.Lists.{kept}

pub record EgressPaneConfig : Type 0 where
  pub destination : String

pub record ManualQaConfig : Type 0 where
  pub stub : Option Bool

pub record ReleasedRecordsColumnConfig : Type 0 where
  pub header : String
  pub pointer : String

pub record FigureConfig : Type 0 where
  pub icn_pointer : String
  pub application_structure_ident_pointer : String

pub record ReleasedRecordsPaneConfig : Type 0 where
  pub title : String
  pub destination : String
  pub kind : Option String
  pub columns : List ReleasedRecordsColumnConfig
  pub figure : Option FigureConfig

pub record CortexConfig : Type 0 where
  pub base_url : String
  pub idp : Option String
  pub case_link_label : Option String
  pub display_name : Option String

unfoldable pub parse_egress_pane : Value → Option EgressPaneConfig
unfolding trimmed
parse_egress_pane raw = elim (trimmed (member "destination" raw)) [
  | none ↦ none
  | some s ↦ some (record { destination = s })
]

unfoldable pub parse_manual_qa : Value → Option ManualQaConfig
parse_manual_qa raw =
    if is_map raw then some (record { stub = as_bool (member "stub" raw) }) else none

abbrev is_slash : Char → Bool
is_slash c = eqb (code c) 47

abbrev starts_with_slash : String → Bool
starts_with_slash String.[] = false
starts_with_slash (String.◌∷◌ c s) = is_slash c

-- the empty text, or one that starts with a slash
unfoldable pub pointer_of : Value → Option String
pointer_of v = elim (as_text v) [
  | none ↦ none
  | some s ↦ if s == "" || starts_with_slash s then some s else none
]

unfoldable pub parse_figure_config : Value → Option FigureConfig
unfolding pointer_of
parse_figure_config raw =
    if has_member "hotspotPointer" raw && not (has_member "applicationStructureIdentPointer" raw)
    then none
    else elim (pointer_of (member "icnPointer" raw)) [
      | none ↦ none
      | some icn ↦ elim (pointer_of (member "applicationStructureIdentPointer" raw)) [
        | none ↦ none
        | some ident ↦
            some (record { icn_pointer = icn; application_structure_ident_pointer = ident })
      ]
    ]

unfoldable pub column_config : Value → Option ReleasedRecordsColumnConfig
column_config x = elim (as_text (member "header" x)) [
  | none ↦ none
  | some header ↦ if header == "" then none else elim (as_text (member "pointer" x)) [
    | none ↦ none
    | some pointer ↦ some (record { header = header; pointer = pointer })
  ]
]

-- `none` if one of the columns is bad
unfoldable pub column_configs : List Value → Option (List ReleasedRecordsColumnConfig)
unfolding column_config
column_configs [] = some []
column_configs (x ∷ xs) =
    let rest = column_configs xs in
    elim (column_config x) [
      | none ↦ none
      | some c ↦ elim rest [ none ↦ none | some cs ↦ some (c ∷ cs) ]
    ]

abbrev pub columns_of : Value → Option (List ReleasedRecordsColumnConfig)
columns_of v = elim (as_list v) [ none ↦ none | some xs ↦ column_configs xs ]

-- `none` for a kind that is there and no text
abbrev pub kind_of_pane : Value → Option (Option String)
kind_of_pane undefined = some none
kind_of_pane v = elim (as_text v) [ none ↦ none | some s ↦ some (some s) ]

unfoldable pub pane_of : Value → Option ReleasedRecordsPaneConfig
unfolding column_configs parse_figure_config
pane_of e = elim (unblank (member "title" e)) [
  | none ↦ none
  | some title ↦ elim (unblank (member "destination" e)) [
    | none ↦ none
    | some destination ↦ elim (kind_of_pane (member "kind" e)) [
      | none ↦ none
      | some kind ↦ elim (columns_of (member "columns" e)) [
        | none ↦ none
        | some columns ↦ some (record {
          title = title;
          destination = destination;
          kind = kind;
          columns = columns;
          figure = parse_figure_config (member "figure" e);
        })
      ]
    ]
  ]
]

unfoldable pub parse_released_records_panes : Value → List ReleasedRecordsPaneConfig
unfolding kept pane_of
parse_released_records_panes raw = elim (as_list raw) [ none ↦ [] | some vs ↦ kept pane_of vs ]

abbrev pub is_http : String → Bool
is_http s = has_prefix "http://" s || has_prefix "https://" s

-- `s.replace(/\/+$/, '')`
unfoldable pub strip_slashes : String → String
strip_slashes String.[] = String.[]
strip_slashes (String.◌∷◌ c s) =
    let rest = strip_slashes s in if is_slash c && rest == "" then "" else String.◌∷◌ c rest

abbrev is_low : ℕ → Bool
is_low c = (leb 97 c && leb c 122) || (leb 48 c && leb c 57)

abbrev all_codes : (ℕ → Bool) → String → Bool
all_codes p String.[] = true
all_codes p (String.◌∷◌ c s) = p (code c) && all_codes p s

abbrev first_code : (ℕ → Bool) → String → Bool
first_code p String.[] = false
first_code p (String.◌∷◌ c s) = p (code c)

-- `/^[a-z0-9][a-z0-9-]{0,62}$/`
unfoldable pub is_idp : String → Bool
is_idp s =
    first_code is_low s && all_codes (λ c. is_low c || eqb c 45) s && leb (length (utf16 s)) 63

-- `/^[^\x00-\x1f\x7f]{1,n}$/`
unfoldable pub is_plain : ℕ → String → Bool
is_plain n s =
    not (s == "") && all_codes (λ c. leb 32 c && not (eqb c 127)) s && leb (length (utf16 s)) n

unfoldable pub idp_of : Value → Option String
unfolding is_idp
idp_of v = elim (as_text v) [ none ↦ none | some s ↦ if is_idp s then some s else none ]

unfoldable pub plain_of : ℕ → Value → Option String
unfolding is_plain
plain_of n v = elim (as_text v) [
  | none ↦ none
  | some s ↦ if is_plain n (trim s) then some (trim s) else none
]

unfoldable pub parse_cortex : Value → Option CortexConfig
unfolding idp_of plain_of strip_slashes
parse_cortex raw = elim (as_text (member "baseUrl" raw)) [
  | none ↦ none
  | some url ↦
      if not (is_http url)
      then none
      else some (record {
        base_url = strip_slashes url;
        idp = idp_of (member "idp" raw);
        case_link_label = plain_of 48 (member "caseLinkLabel" raw);
        display_name = plain_of 64 (member "displayName" raw);
      })
]

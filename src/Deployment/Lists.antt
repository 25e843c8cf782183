-- ===== src/Deployment/Lists.antt =====
-- The lists of frontend/src/deployment.ts that the chart declares: edges, childLinks and tiers, the
-- link monitor's heartbeat, and what the screens read of them. A bad entry is dropped alone.
use openddil_demo.Base.{
  String, Bool, not, ◌++◌, map, Option, none, some, List, [], ◌∷◌, ◌==◌, if◌then◌else◌, trim, find,
  or_else,
}
use openddil_demo.Base.Sort.{sort_by, distinct, text_le}
use openddil_demo.Json.{
  Value, Decimal, whole, undefined, null, text, member, as_text, as_bool, as_num, as_list, is_map,
  is_positive,
}
use openddil_demo.Deployment.Tier.{trimmed}

pub data EdgeAttachment : Type 0 where
  tier hq : EdgeAttachment

pub record EdgeAttachmentEntry : Type 0 where
  pub id : String
  pub attachment : EdgeAttachment

pub record ChildLinkEntry : Type 0 where
  pub id : String
  pub has_children : Bool

pub record TierEntry : Type 0 where
  pub id : String
  pub parent : Option String
  pub has_children : Bool

abbrev pub attachment_of : Value → Option EdgeAttachment
attachment_of v = elim (as_text v) [
  | none ↦ none
  | some s ↦ if s == "tier" then some tier else if s == "hq" then some hq else none
]

unfoldable pub edge_entry : Value → Option EdgeAttachmentEntry
unfolding trimmed
edge_entry e = elim (trimmed (member "id" e)) [
  | none ↦ none
  | some id ↦ elim (attachment_of (member "attachment" e)) [
    | none ↦ none
    | some a ↦ some (record { id = id; attachment = a })
  ]
]

unfoldable pub child_entry : Value → Option ChildLinkEntry
unfolding trimmed
child_entry e = elim (trimmed (member "id" e)) [
  | none ↦ none
  | some id ↦ elim (as_bool (member "hasChildren" e)) [
    | none ↦ none
    | some b ↦ some (record { id = id; has_children = b })
  ]
]

-- a parent that is neither a text nor null or absent is refused; a blank one is the empty text
unfoldable pub parent_of : Value → Option (Option String)
parent_of undefined = some none
parent_of null = some none
parent_of (text s) = some (some (trim s))
parent_of _ = none

unfoldable pub tier_entry : Value → Option TierEntry
unfolding trimmed parent_of
tier_entry e = elim (trimmed (member "id" e)) [
  | none ↦ none
  | some id ↦ elim (parent_of (member "parent" e)) [
    | none ↦ none
    | some parent ↦ elim (as_bool (member "hasChildren" e)) [
      | none ↦ none
      | some b ↦ some (record { id = id; parent = parent; has_children = b })
    ]
  ]
]

-- the loop of the parsers: the entries that are accepted, in their order
unfoldable pub kept {ℓ} : {A : Type ℓ} → (Value → Option A) → List Value → List A
kept parse [] = []
kept parse (v ∷ vs) = let rest = kept parse vs in elim (parse v) [ none ↦ rest | some a ↦ a ∷ rest ]

abbrev pub kept_list {ℓ} : {A : Type ℓ} → (Value → Option A) → Value → Option (List A)
kept_list parse raw = elim (as_list raw) [ none ↦ none | some vs ↦ some (kept parse vs) ]

unfoldable pub parse_edge_attachments : Value → Option (List EdgeAttachmentEntry)
unfolding kept edge_entry
parse_edge_attachments raw = kept_list edge_entry raw

unfoldable pub parse_child_links : Value → Option (List ChildLinkEntry)
unfolding kept child_entry
parse_child_links raw = kept_list child_entry raw

abbrev pub unless_empty {ℓ} : {A : Type ℓ} → List A → Option (List A)
unless_empty [] = none
unless_empty (x ∷ xs) = some (x ∷ xs)

unfoldable pub parse_tiers : Value → Option (List TierEntry)
unfolding kept tier_entry
parse_tiers raw = elim (as_list raw) [ none ↦ none | some vs ↦ unless_empty (kept tier_entry vs) ]

unfoldable pub parse_link_heartbeat_s : Value → Option Decimal
parse_link_heartbeat_s raw =
    if not (is_map raw) then none else elim (as_num (member "heartbeat_s" raw)) [
      | none ↦ none
      | some v ↦ if is_positive v then some v else none
    ]

abbrev pub default_link_heartbeat_s : Decimal
default_link_heartbeat_s = whole 30

abbrev pub link_heartbeat_s : Option Decimal → Decimal
link_heartbeat_s declared = or_else declared default_link_heartbeat_s

abbrev pub edge_attachment : Option (List EdgeAttachmentEntry) → String → Option EdgeAttachment
edge_attachment edges edge_id =
    elim (find (λ (e : EdgeAttachmentEntry). e.id == edge_id) (or_else edges [])) [
      | none ↦ none
      | some e ↦ some e.attachment
    ]

pub data ChildShape : Type 0 where
  rollup_shape leaf_shape : ChildShape

abbrev pub child_link_shape : Option (List ChildLinkEntry) → String → Option ChildShape
child_link_shape links id = elim (find (λ (c : ChildLinkEntry). c.id == id) (or_else links [])) [
  | none ↦ none
  | some c ↦ some (if c.has_children then rollup_shape else leaf_shape)
]

unfoldable pub declared_link_ids :
    Option (List TierEntry) → Option (List ChildLinkEntry) → List String
declared_link_ids tiers links = sort_by text_le (
    distinct (
      map (λ (t : TierEntry). t.id) (or_else tiers [])
      ++ map (λ (c : ChildLinkEntry). c.id) (or_else links [])))

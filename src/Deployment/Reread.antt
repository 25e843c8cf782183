-- ===== src/Deployment/Reread.antt =====
-- The tier that parseTier of frontend/src/deployment.ts accepts, and the trimmed texts in it.
use openddil_demo.Base.{
  String, ◌≡◌, refl, sym, inl, inr, false, Option, none, some, arith, ◌==◌, trim, Bool-cases,
  Option-cases, subst,
}
use openddil_demo.Base.Trimmed.{trim-trim}
use openddil_demo.Json.{
  Value, done, entry, null, text, bool, object, lookup, member, as_bool, as_text,
}
use openddil_demo.Deployment.Tier.{
  ScopeColumn, edge_id, region_id, TierScope, TierConfig, trimmed, column_of, scope_of, parse_tier,
}

-- a text without blanks around it, and not empty
abbrev pub IsTrimmed : String → Type 0
IsTrimmed s = ((s == "") ≡ false) × (trim s ≡ s)

abbrev pub IsTrimmedOption : Option String → Type 0
IsTrimmedOption none = Unit {0}
IsTrimmedOption (some s) = IsTrimmed s

abbrev pub IsScope : Option TierScope → Type 0
IsScope none = Unit {0}
IsScope (some sc) = (trim sc.value == "") ≡ false

pub record IsTier (t : TierConfig) : Type 0 where
  pub id : IsTrimmed t.id
  pub label : IsTrimmedOption t.label
  pub scope : IsScope t.scope
  pub parent : IsTrimmedOption t.parent

abbrev pub text_or_null : Option String → Value
text_or_null none = null
text_or_null (some s) = text s

abbrev pub column_value : ScopeColumn → Value
column_value edge_id = text "edge_id"
column_value region_id = text "region_id"

abbrev pub scope_value : Option TierScope → Value
scope_value none = null
scope_value (some sc) =
    object (entry "column" (column_value sc.column) (entry "value" (text sc.value) done))

abbrev pub tier_value : TierConfig → Value
tier_value t = object (
    entry "id" (text t.id) (
      entry "label" (text_or_null t.label) (
        entry "scope" (scope_value t.scope) (
          entry "has_children" (bool t.has_children)
            (entry "parent" (text_or_null t.parent) done)))))

pub trimmed_accepted : (v : Value) (s : String) → trimmed v ≡ some s → IsTrimmed s
unfolding trimmed
trimmed_accepted v s h = elim (Option-cases (as_text v)) [
  | inl e ↦ absurd (ground arith)
  | inr (x, e) ↦ elim (Bool-cases (trim x == "")) [
    | inl k ↦ absurd (ground arith)
    | inr k ↦ let same : trim x ≡ s = ground arith in subst IsTrimmed same (k, trim-trim x)
  ]
]

pub trimmed-IsTrimmed : (v : Value) → IsTrimmedOption (trimmed v)
trimmed-IsTrimmed v = elim (Option-cases (trimmed v)) [
  | inl e ↦ subst IsTrimmedOption (sym e) tt
  | inr (s, e) ↦ subst IsTrimmedOption (sym e) (trimmed_accepted v s e)
]

pub trimmed-text : (s : String) → IsTrimmed s → trimmed (text s) ≡ some s
unfolding trimmed
trimmed-text s (h, k) = ground (arith, h, k)

pub trimmed-text_or_null : (o : Option String) → IsTrimmedOption o → trimmed (text_or_null o) ≡ o
unfolding trimmed
trimmed-text_or_null none h = refl
trimmed-text_or_null (some s) h = trimmed-text s h

scope_of-IsScope : (v : Value) (sc : Option TierScope) → scope_of v ≡ some sc → IsScope sc
unfolding scope_of
scope_of-IsScope v none h = tt
scope_of-IsScope v (some sc) h = elim (Option-cases (column_of (member "column" v))) [
  | inl e ↦ absurd (ground arith)
  | inr (c, e) ↦ elim (Option-cases (as_text (member "value" v))) [
    | inl k ↦ absurd (ground arith)
    | inr (s, k) ↦ elim (Bool-cases (trim s == "")) [
      | inl b ↦ absurd (ground arith)
      | inr b ↦ let same : s ≡ sc.value = ground arith in subst (λ x. (trim x == "") ≡ false) same b
    ]
  ]
]

scope_of_column :
    (c : ScopeColumn) (s : String)
    → (trim s == "") ≡ false
    → scope_of (scope_value (some (record { column = c; value = s })))
      ≡ some (some (record { column = c; value = s }))
unfolding scope_of lookup
scope_of_column edge_id s h = ground (arith, h)
scope_of_column region_id s h = ground (arith, h)

scope_of-scope_value : (sc : Option TierScope) → IsScope sc → scope_of (scope_value sc) ≡ some sc
unfolding scope_of
scope_of-scope_value none h = refl
scope_of-scope_value (some sc) h = scope_of_column sc.column sc.value h

parse_tier-IsTier : (raw : Value) (t : TierConfig) → parse_tier raw ≡ some t → IsTier t
unfolding parse_tier
parse_tier-IsTier raw t h = elim (Option-cases (trimmed (member "id" raw))) [
  | inl e ↦ absurd (ground arith)
  | inr (id, e) ↦ elim (Option-cases (as_bool (member "has_children" raw))) [
    | inl k ↦ absurd (ground arith)
    | inr (b, k) ↦ elim (Option-cases (scope_of (member "scope" raw))) [
      | inl q ↦ absurd (ground arith)
      | inr (sc, q) ↦
          let same : record {
            id = id;
            label = trimmed (member "label" raw);
            scope = sc;
            has_children = b;
            parent = trimmed (member "parent" raw);
          }
              ≡ t =
            ground arith in
          subst IsTier same (record {
            id = trimmed_accepted (member "id" raw) id e;
            label = trimmed-IsTrimmed (member "label" raw);
            scope = scope_of-IsScope (member "scope" raw) sc q;
            parent = trimmed-IsTrimmed (member "parent" raw);
          })
    ]
  ]
]

parse_tier-tier_value : (t : TierConfig) → IsTier t → parse_tier (tier_value t) ≡ some t
unfolding parse_tier lookup
parse_tier-tier_value t h = ground (
  arith,
  trimmed-text t.id h.id,
  trimmed-text_or_null t.label h.label,
  trimmed-text_or_null t.parent h.parent,
  scope_of-scope_value t.scope h.scope,
)

-- A tier's configuration that is accepted has an id, and a label and a parent if any, that are not
-- blank and have no blanks around them, and a scope's value that is not blank; written out, it is read
-- back as it is.
pub parse_tier_reread :
    (raw : Value) (t : TierConfig)
    → parse_tier raw ≡ some t
    → IsTier t × (parse_tier (tier_value t) ≡ some t)
parse_tier_reread raw t h =
    let fine = parse_tier-IsTier raw t h in (fine, parse_tier-tier_value t fine)

-- ===== src/Deployment/Says.antt =====
-- What an entry of the lists that frontend/src/deployment.ts reads has to say, and that the parsers
-- of the entries read exactly this.
use openddil_demo.Base.{
  String, ◌≡◌, refl, ap, eq_iff, inl, inr, ◌⊎◌, ◌↔◌, Bool, false, Option, none, some, arith, trim,
  Option-cases, Bool-cases, subst, ◌==◌,
}
use openddil_demo.Json.{
  Value, undefined, infinite, nan, num, null, text, bool, array, object, member, as_bool,
}
use openddil_demo.Deployment.Tier.{trimmed}
use openddil_demo.Deployment.Lists.{
  EdgeAttachment, tier, hq, EdgeAttachmentEntry, ChildLinkEntry, TierEntry, attachment_of,
  edge_entry, child_entry, parent_of, tier_entry,
}

-- a text that says the id, with blanks around it or not, and the id is not blank
abbrev pub SaysId : Value → String → Type 0
SaysId v id = (s : String) × (v ≡ text s) × (trim s ≡ id) × ((id == "") ≡ false)

abbrev pub SaysAttachment : Value → EdgeAttachment → Type 0
SaysAttachment v tier = v ≡ text "tier"
SaysAttachment v hq = v ≡ text "hq"

-- a parent is a text, or it is null or absent
abbrev pub SaysParent : Value → Option String → Type 0
SaysParent v none = (v ≡ null) ⊎ (v ≡ undefined)
SaysParent v (some p) = (s : String) × (v ≡ text s) × (trim s ≡ p)

abbrev pub SaysEdge : Value → EdgeAttachmentEntry → Type 0
SaysEdge v e = SaysId (member "id" v) e.id × SaysAttachment (member "attachment" v) e.attachment

abbrev pub SaysChild : Value → ChildLinkEntry → Type 0
SaysChild v c = SaysId (member "id" v) c.id × (member "hasChildren" v ≡ bool c.has_children)

abbrev pub SaysTier : Value → TierEntry → Type 0
SaysTier v t =
    SaysId (member "id" v) t.id
    × SaysParent (member "parent" v) t.parent
    × (member "hasChildren" v ≡ bool t.has_children)

trimmed-SaysId : (v : Value) (id : String) → (trimmed v ≡ some id) ↔ SaysId v id
unfolding trimmed
trimmed-SaysId v id = (from v, λ (s, e, t, b). rw e (rw t (rw b refl)))
  where
    from : (v : Value) → trimmed v ≡ some id → SaysId v id
    from (text s) h = elim (Bool-cases (trim s == "")) [
      | inl e ↦ absurd (ground arith)
      | inr e ↦
          let same : trim s ≡ id = ground arith in
          (s, refl, same, subst (λ x. (x == "") ≡ false) same e)
    ]
    from undefined h = cc
    from null h = cc
    from infinite h = cc
    from nan h = cc
    from (bool b) h = cc
    from (num n) h = cc
    from (array vs) h = cc
    from (object fs) h = cc

attachment_of-SaysAttachment :
    (v : Value) (a : EdgeAttachment) → (attachment_of v ≡ some a) ↔ SaysAttachment v a
attachment_of-SaysAttachment v a = (from v a, to v a)
  where
    from : (v : Value) (a : EdgeAttachment) → attachment_of v ≡ some a → SaysAttachment v a
    from (text s) tier h = ap text ((eq_iff s "tier").0 (ground arith))
    from (text s) hq h = ap text ((eq_iff s "hq").0 (ground arith))
    from undefined a h = cc
    from null a h = cc
    from infinite a h = cc
    from nan a h = cc
    from (bool b) a h = cc
    from (num n) a h = cc
    from (array vs) a h = cc
    from (object fs) a h = cc

    to : (v : Value) (a : EdgeAttachment) → SaysAttachment v a → attachment_of v ≡ some a
    to v tier e = rw e refl
    to v hq e = rw e refl

parent_of-SaysParent : (v : Value) (p : Option String) → (parent_of v ≡ some p) ↔ SaysParent v p
unfolding parent_of
parent_of-SaysParent v p = (from v p, to v p)
  where
    from : (v : Value) (p : Option String) → parent_of v ≡ some p → SaysParent v p
    from undefined none h = inr refl
    from null none h = inl refl
    from (text s) (some p) h = (s, refl, ground arith)
    from undefined (some p) h = cc
    from null (some p) h = cc
    from (text s) none h = cc
    from infinite p h = cc
    from nan p h = cc
    from (bool b) p h = cc
    from (num n) p h = cc
    from (array vs) p h = cc
    from (object fs) p h = cc

    to : (v : Value) (p : Option String) → SaysParent v p → parent_of v ≡ some p
    to v none (inl e) = rw e refl
    to v none (inr e) = rw e refl
    to v (some p) (s, e, t) = rw e (rw t refl)

as_bool_iff : (v : Value) (b : Bool) → (as_bool v ≡ some b) ↔ (v ≡ bool b)
as_bool_iff v b = (from v, λ e. rw e refl)
  where
    from : (v : Value) → as_bool v ≡ some b → v ≡ bool b
    from (bool c) h = ap bool (ground arith)
    from (text s) h = cc
    from undefined h = cc
    from null h = cc
    from infinite h = cc
    from nan h = cc
    from (num n) h = cc
    from (array vs) h = cc
    from (object fs) h = cc

pub edge_entry-SaysEdge :
    (v : Value) (e : EdgeAttachmentEntry) → (edge_entry v ≡ some e) ↔ SaysEdge v e
unfolding edge_entry
edge_entry-SaysEdge v e = (from, to)
  where
    from : edge_entry v ≡ some e → SaysEdge v e
    from h = elim (Option-cases (trimmed (member "id" v))) [
      | inl k ↦ absurd (ground arith)
      | inr (id, k) ↦ elim (Option-cases (attachment_of (member "attachment" v))) [
        | inl q ↦ absurd (ground arith)
        | inr (a, q) ↦
            let same : record { id = id; attachment = a } ≡ e = ground arith in
            subst (SaysEdge v) same (
              (trimmed-SaysId (member "id" v) id).0 k,
              (attachment_of-SaysAttachment (member "attachment" v) a).0 q,
            )
      ]
    ]

    to : SaysEdge v e → edge_entry v ≡ some e
    to (i, a) =
        let k = (trimmed-SaysId (member "id" v) e.id).1 i in
        let q = (attachment_of-SaysAttachment (member "attachment" v) e.attachment).1 a in
        ground arith

pub child_entry-SaysChild :
    (v : Value) (c : ChildLinkEntry) → (child_entry v ≡ some c) ↔ SaysChild v c
unfolding child_entry
child_entry-SaysChild v c = (from, to)
  where
    from : child_entry v ≡ some c → SaysChild v c
    from h = elim (Option-cases (trimmed (member "id" v))) [
      | inl k ↦ absurd (ground arith)
      | inr (id, k) ↦ elim (Option-cases (as_bool (member "hasChildren" v))) [
        | inl q ↦ absurd (ground arith)
        | inr (b, q) ↦
            let same : record { id = id; has_children = b } ≡ c = ground arith in
            subst (SaysChild v) same (
              (trimmed-SaysId (member "id" v) id).0 k,
              (as_bool_iff (member "hasChildren" v) b).0 q,
            )
      ]
    ]

    to : SaysChild v c → child_entry v ≡ some c
    to (i, b) =
        let k = (trimmed-SaysId (member "id" v) c.id).1 i in
        let q = (as_bool_iff (member "hasChildren" v) c.has_children).1 b in ground arith

pub tier_entry-SaysTier : (v : Value) (t : TierEntry) → (tier_entry v ≡ some t) ↔ SaysTier v t
unfolding tier_entry
tier_entry-SaysTier v t = (from, to)
  where
    from : tier_entry v ≡ some t → SaysTier v t
    from h = elim (Option-cases (trimmed (member "id" v))) [
      | inl k ↦ absurd (ground arith)
      | inr (id, k) ↦ elim (Option-cases (parent_of (member "parent" v))) [
        | inl r ↦ absurd (ground arith)
        | inr (p, r) ↦ elim (Option-cases (as_bool (member "hasChildren" v))) [
          | inl q ↦ absurd (ground arith)
          | inr (b, q) ↦
              let same : record { id = id; parent = p; has_children = b } ≡ t = ground arith in
              subst (SaysTier v) same (
                (trimmed-SaysId (member "id" v) id).0 k,
                (parent_of-SaysParent (member "parent" v) p).0 r,
                (as_bool_iff (member "hasChildren" v) b).0 q,
              )
        ]
      ]
    ]

    to : SaysTier v t → tier_entry v ≡ some t
    to (i, p, b) =
        let k = (trimmed-SaysId (member "id" v) t.id).1 i in
        let r = (parent_of-SaysParent (member "parent" v) t.parent).1 p in
        let q = (as_bool_iff (member "hasChildren" v) t.has_children).1 b in ground arith

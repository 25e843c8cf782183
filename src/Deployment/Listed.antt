-- ===== src/Deployment/Listed.antt =====
-- The lists that frontend/src/deployment.ts reads: which entries are kept.
use openddil_demo.Base.{
  ◌≡◌, refl, sym, ◌∙◌, inl, inr, ◌↔◌, Option, none, some, List, [], ◌∷◌, arith, Option-cases, subst,
}
use openddil_demo.Json.{Value, as_list}
use openddil_demo.Deployment.Lists.{
  EdgeAttachmentEntry, ChildLinkEntry, TierEntry, edge_entry, child_entry, tier_entry, kept,
  parse_edge_attachments, parse_child_links, parse_tiers, unless_empty,
}
use openddil_demo.Deployment.Says.{
  SaysEdge, SaysChild, SaysTier, edge_entry-SaysEdge, child_entry-SaysChild, tier_entry-SaysTier,
}

module _ {ℓ} {A : Type ℓ} (parse : Value → Option A) where
  kept_cons :
      (v : Value) (a : A) (vs : List Value)
      → parse v ≡ some a
      → kept parse (v ∷ vs) ≡ a ∷ kept parse vs
  unfolding kept
  kept_cons v a vs e = rw (e, kept) refl

  kept_skip : (v : Value) (vs : List Value) → parse v ≡ none → kept parse (v ∷ vs) ≡ kept parse vs
  unfolding kept
  kept_skip v vs e = rw (e, kept) refl

module _ {ℓ} {A : Type ℓ} (Says : Value → A → Type 0) where
  -- The entries that are read off a list: each value of the list that says an entry gives it, in the
  -- list's order, and each other value gives none.
  pub data Selects : List Value → List A → Type ℓ where
    ended : Selects [] []
    taken :
        {v : Value} {a : A} {vs : List Value} {l : List A}
        → Says v a
        → Selects vs l
        → Selects (v ∷ vs) (a ∷ l)
    skipped :
        {v : Value} {vs : List Value} {l : List A}
        → ((a : A) → ¬ Says v a)
        → Selects vs l
        → Selects (v ∷ vs) l

  kept-Selects :
      (parse : Value → Option A)
      → ((v : Value) (a : A) → (parse v ≡ some a) ↔ Says v a)
      → (vs : List Value) → Selects vs (kept parse vs)
  unfolding kept
  kept-Selects parse says [] = ended
  kept-Selects parse says (v ∷ vs) = elim (Option-cases (parse v)) [
    | inl e ↦ subst (Selects (v ∷ vs)) (sym (kept_skip parse v vs e)) (
        skipped (λ a s. let clash : none ≡ some a = sym e ∙ (says v a).1 s in cc)
          (kept-Selects parse says vs))
    | inr (a, e) ↦
        subst (Selects (v ∷ vs)) (sym (kept_cons parse v a vs e))
          (taken ((says v a).0 e) (kept-Selects parse says vs))
  ]

-- Of a declared list, edges, childLinks or tiers, exactly the entries that say something are read, each
-- as it says and in the list's order, whatever stands between them: an id that is not blank, with the
-- blanks around it taken off, and a valid attachment; an id and a Boolean hasChildren; or an id, a
-- Boolean hasChildren, and a parent that is a text, null or absent. A list of tiers without any such
-- entry is no list.
pub declared_lists_read :
    (vs : List Value) (raw : Value)
    → as_list raw ≡ some vs
    → ((es : List EdgeAttachmentEntry) × (parse_edge_attachments raw ≡ some es)
        × Selects SaysEdge vs es)
      × ((cs : List ChildLinkEntry) × (parse_child_links raw ≡ some cs) × Selects SaysChild vs cs)
      × ((ts : List TierEntry) × (parse_tiers raw ≡ unless_empty ts) × Selects SaysTier vs ts)
unfolding parse_edge_attachments parse_child_links parse_tiers
declared_lists_read vs raw h = (
  (kept edge_entry vs, ground arith, kept-Selects SaysEdge edge_entry edge_entry-SaysEdge vs),
  (kept child_entry vs, ground arith, kept-Selects SaysChild child_entry child_entry-SaysChild vs),
  (kept tier_entry vs, ground arith, kept-Selects SaysTier tier_entry tier_entry-SaysTier vs),
)

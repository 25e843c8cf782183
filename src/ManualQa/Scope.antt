-- ===== src/ManualQa/Scope.antt =====
-- The DMCs that a question is scoped to, and a question's link.
use openddil_demo.Base.{
  String, ◌≡◌, refl, Bool, false, ◌||◌, ◌&&◌, not, Option, none, some, List, [], ◌∷◌, ◌++◌, arith,
  any, ◌==◌, any-append,
}
use openddil_demo.Base.Sort.{
  any-sort_by, distinct, distinct-IsDistinct, holds-distinct, holds_text, IsDistinct,
  sort_by-IsDistinct, text_le,
}
use openddil_demo.ManualQa.{CatalogCode, named_dmc, code_dmcs, manual_qa_scope}

-- the DMC of a code or of an open card is the one asked for, which has a name
abbrev pub is_named : String → Option String → Bool
is_named k none = false
is_named k (some d) = not (d == "") && d == k

holds-named : (k : String) (o : Option String) → holds_text k (named_dmc o) ≡ is_named k o
holds-named k none = refl
holds-named k (some d) = ground arith

holds-code_dmcs :
    (k : String) (codes : List CatalogCode)
    → holds_text k (code_dmcs codes) ≡ any (λ (c : CatalogCode). is_named k c.dmc) codes
unfolding code_dmcs
holds-code_dmcs k [] = refl
holds-code_dmcs k (c ∷ codes) = ground (
  arith,
  any-append (λ (j : String). j == k) (named_dmc c.dmc) (code_dmcs codes),
  holds-named k c.dmc,
  holds-code_dmcs k codes,
)

-- The scope names no DMC twice, and names one exactly if a code of the catalog or the open card
-- carries it and it is not empty.
pub manual_qa_scope_lem :
    (codes : List CatalogCode) (bit_entry_dmc : Option String) (k : String)
    → IsDistinct (manual_qa_scope codes bit_entry_dmc)
      × (holds_text k (manual_qa_scope codes bit_entry_dmc)
          ≡ (any (λ (c : CatalogCode). is_named k c.dmc) codes || is_named k bit_entry_dmc))
unfolding manual_qa_scope
manual_qa_scope_lem codes bit_entry_dmc k =
    let all_dmcs = code_dmcs codes ++ named_dmc bit_entry_dmc in
    let p = λ (j : String). j == k in
    (
      sort_by-IsDistinct text_le (distinct all_dmcs) (distinct-IsDistinct all_dmcs),
      ground (
        arith,
        any-sort_by text_le p (distinct all_dmcs),
        holds-distinct k all_dmcs,
        any-append p (code_dmcs codes) (named_dmc bit_entry_dmc),
        holds-code_dmcs k codes,
        holds-named k bit_entry_dmc,
      ),
    )

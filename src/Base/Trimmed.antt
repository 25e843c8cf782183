-- ===== src/Base/Trimmed.antt =====
-- Trimming a text twice is trimming it once.
use Prim.Native.Char.{Char}
use Prim.Native.String.{String}
use mathlib.Core.Path.{◌≡◌, refl, sym, ap, ◌∙◌, subst}
use mathlib.Core.Bool.{true, false, ◌&&◌}
use mathlib.Core.Logic.{inl, inr}
use native.Mathlib.Omega.{arith}
use text.Mathlib.Text.{◌==◌}
use package.openddil_demo.Base.Tests.{Bool-cases}
use package.openddil_demo.Base.Text.{is_space, trim_start, trim_end, trim}

trim_end_blank :
    (c : Char) (s : String)
    → (is_space c && trim_end s == "") ≡ true
    → trim_end (String.◌∷◌ c s) ≡ ""
unfolding trim_end
trim_end_blank c s e = rw (e, trim_end) refl

trim_end_cons :
    (c : Char) (s : String)
    → (is_space c && trim_end s == "") ≡ false
    → trim_end (String.◌∷◌ c s) ≡ String.◌∷◌ c (trim_end s)
unfolding trim_end
trim_end_cons c s e = rw (e, trim_end) refl

trim_end_idem : (s : String) → trim_end (trim_end s) ≡ trim_end s
unfolding trim_end
trim_end_idem String.[] = refl
trim_end_idem (String.◌∷◌ c s) = elim (Bool-cases (is_space c && trim_end s == "")) [
  | inl e ↦ subst (λ t. trim_end t ≡ t) (sym (trim_end_blank c s e)) refl
  | inr e ↦
      let again : trim_end (String.◌∷◌ c (trim_end s)) ≡ String.◌∷◌ c (trim_end s) =
        trim_end_cons c (trim_end s)
          (subst (λ t. (is_space c && t == "") ≡ false) (sym (trim_end_idem s)) e)
        ∙ ap (String.◌∷◌ c) (trim_end_idem s) in
      subst (λ t. trim_end t ≡ t) (sym (trim_end_cons c s e)) again
]

-- the first character that is kept is no space, so the end's trimming leaves it
trim_end_start : (s : String) → trim_start (trim_end (trim_start s)) ≡ trim_end (trim_start s)
unfolding trim_start trim_end
trim_end_start String.[] = refl
trim_end_start (String.◌∷◌ c s) = elim (Bool-cases (is_space c)) [
  | inl e ↦ rw e (trim_end_start s)
  | inr e ↦ ground (arith, e)
]

-- Trimming a trimmed text leaves it as it is.
pub trim-trim : (s : String) → trim (trim s) ≡ trim s
unfolding trim
trim-trim s = rw (trim_end_start s) (trim_end_idem (trim_start s))

-- ===== src/Deployment/Keys.antt =====
-- The munition keys that frontend/src/deployment.ts accepts, described on the parts of a key.
use Prim.Native.Char.{code}
use openddil_demo.Base.{
  ℕ, zero, suc, String, ◌≡◌, inl, inr, Bool, true, false, ◌&&◌, ◌||◌, List, [], ◌∷◌, arith, eqb,
  eqb→eq, if◌then◌else◌, length, all, Bool-cases,
}
use openddil_demo.Deployment.Moves.{is_digit, key_from, is_munition_key}

-- a text cut at its dots, as codes: the first part, and the others
abbrev pub first_part : String → List ℕ
first_part String.[] = []
first_part (String.◌∷◌ c s) =
    let part = first_part s in if eqb (code c) 46 then [] else code c ∷ part

abbrev pub other_parts : String → List (List ℕ)
other_parts String.[] = []
other_parts (String.◌∷◌ c s) =
    let others = other_parts s in if eqb (code c) 46 then first_part s ∷ others else others

abbrev pub has_codes : List ℕ → Bool
has_codes [] = false
has_codes (c ∷ cs) = true

abbrev pub is_number_part : List ℕ → Bool
is_number_part part = has_codes part && all is_digit part

dot_code : (n : ℕ) → eqb n 46 ≡ true → is_digit n ≡ false
dot_code n e = ground (arith, eqb→eq n 46 e)

key_from-parts :
    (dots : ℕ) (started : Bool) (s : String)
    → key_from dots started s ≡ (
        eqb (length (other_parts s)) dots
        && (started || has_codes (first_part s))
        && all is_digit (first_part s)
        && all is_number_part (other_parts s))
unfolding key_from
key_from-parts zero started String.[] = ground arith
key_from-parts (suc dots) started String.[] = ground arith
key_from-parts zero started (String.◌∷◌ c s) = elim (Bool-cases (eqb (code c) 46)) [
  | inl e ↦ rw e (rw (dot_code (code c) e) (ground arith))
  | inr e ↦ rw e (ground (arith, key_from-parts zero true s))
]
key_from-parts (suc dots) started (String.◌∷◌ c s) = elim (Bool-cases (eqb (code c) 46)) [
  | inl e ↦ rw e (rw (dot_code (code c) e) (ground (arith, key_from-parts dots false s)))
  | inr e ↦ rw e (ground (arith, key_from-parts (suc dots) true s))
]

-- A munition key is accepted exactly if it has seven parts between its dots, none of them empty and each
-- of digits alone.
pub is_munition_key-parts :
    (s : String)
    → is_munition_key s ≡ (
        eqb (length (first_part s ∷ other_parts s)) 7
        && all is_number_part (first_part s ∷ other_parts s))
unfolding is_munition_key
is_munition_key-parts s = ground (arith, key_from-parts 6 false s)

-- ===== src/Regions.antt =====
-- Which region a screen shows, and which of the three screens a tier gets: frontend/src/lib/regionScope.ts
-- and frontend/src/lib/tierShape.ts.
pub mod Healing
mod Tests
use Prim.Native.Char.{code}
use Prim.Native.String
use openddil_demo.Base.{
  ℕ, String, Bool, true, false, not, ◌&&◌, ◌||◌, Option, none, some, List, [], ◌∷◌, ◌==◌, eqb, leb,
  if◌then◌else◌, or_else, truthy,
}
use openddil_demo.Base.Sort.{holds_text, sort_by, text_le}

abbrev is_region_code : ℕ → Bool
is_region_code c =
    (leb 97 c && leb c 122) || (leb 65 c && leb c 90) || (leb 48 c && leb c 57) || eqb c 45

abbrev all_region_codes : String → Bool
all_region_codes String.[] = true
all_region_codes (String.◌∷◌ c s) = is_region_code (code c) && all_region_codes s

-- `/^[a-zA-Z0-9-]+$/`
unfoldable pub is_region_id : String → Bool
is_region_id s = not (s == "") && all_region_codes s

abbrev pub is_empty {ℓ} : {A : Type ℓ} → List A → Bool
is_empty [] = true
is_empty (x ∷ xs) = false

unfoldable pub accept_region_param : Option String → List String → Option String
unfolding is_region_id
accept_region_param none fob_regions = none
accept_region_param (some param) fob_regions =
    if not (is_region_id param)
    then none
    else if not (is_empty fob_regions) && not (holds_text param fob_regions)
    then none
    else some param

-- `truthy` texts that one of the lists has
abbrev pub is_known : Option String → List String → List String → Bool
is_known none fob_regions observed_regions = false
is_known (some selected) fob_regions observed_regions =
    not (selected == "")
    && (holds_text selected fob_regions || holds_text selected observed_regions)

abbrev pub first_of : List String → Option String
first_of [] = none
first_of (x ∷ xs) = some x

unfoldable pub heal_region : Option String → List String → List String → Option String
heal_region selected fob_regions [] = none
heal_region selected fob_regions (r ∷ rs) =
    if is_known selected fob_regions (r ∷ rs) then none else first_of (sort_by text_le (r ∷ rs))

pub data TierInstance : Type 0 where
  leaf intermediate root : TierInstance

unfoldable pub instance_for_shape : Bool → Option String → TierInstance
instance_for_shape has_children parent =
    if not has_children then leaf else if truthy parent then intermediate else root

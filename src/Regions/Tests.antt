-- ===== src/Regions/Tests.antt =====
-- A selection that nothing observed bears out.
use openddil_demo.Base.{String, ◌≡◌, refl, true, none, some, List, [], ◌∷◌}
use openddil_demo.Base.Sort.{holds_text, sort_by, text_le}
use openddil_demo.Regions.{heal_region}
use openddil_demo.Regions.Healing.{heal_region_settles}

abbrev regions : List String
regions = "south" ∷ "north" ∷ []

healed : heal_region (some "west") [] regions ≡ some "north"
unfolding heal_region sort_by text_le
healed = refl

heal_region_settles_example :
    (holds_text "north" regions ≡ true) × (heal_region (some "north") [] regions ≡ none)
heal_region_settles_example = heal_region_settles (some "west") [] regions "north" healed refl

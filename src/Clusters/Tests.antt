-- ===== src/Clusters/Tests.antt =====
-- Five items, three of them joined by two edges.
use openddil_demo.Base.{
  lower_codes, starts_with, ends_with, String, some, length, any, ◌<◌, ◌≡◌, refl, ◌↔◌, true, false,
  List, [], ◌∷◌, Bool, eqb,
}
use openddil_demo.Base.Groups.{group_from}
use openddil_demo.Base.Sort.{sort_by}
use openddil_demo.Clusters.Kinds.{KindMember, kinds_of, is_faulted, sev_rank, role_of}
use openddil_demo.Clusters.{MstEdge, find, merged_edges, merge_all, groups_of}
use openddil_demo.Clusters.Labels.{labels}
use openddil_demo.Clusters.Search.{find_ends}
use openddil_demo.Clusters.Grouping.{is_together}
use openddil_demo.Clusters.Partition.{Connected, groups_by, groups_of_refines, groups_of-Connected}

abbrev edges : List MstEdge
edges = record { a = 0; b = 3 } ∷ record { a = 1; b = 2 } ∷ record { a = 3; b = 4 } ∷ []

abbrev flags : List Bool
flags = true ∷ false ∷ true ∷ []

five_items : groups_of 5 edges flags ≡ (0 ∷ 3 ∷ 4 ∷ []) ∷ (1 ∷ []) ∷ (2 ∷ []) ∷ []
unfolding groups_of sort_by
five_items = refl

groups_of_refines_example :
    groups_of 5 edges flags ≡ groups_by (labels (λ i. i) (merged_edges edges flags)) 5
groups_of_refines_example = groups_of_refines 5 edges flags

find_ends_example :
    let (array, root) =
      find
        (length (merged_edges edges flags))
        (merge_all (length (merged_edges edges flags)) (λ j. j) (merged_edges edges flags))
        4 in
    (eqb (array root) root ≡ true) × (root ≡ labels (λ j. j) (merged_edges edges flags) 4)
find_ends_example = find_ends (merged_edges edges flags) 4

groups_of-Connected_example :
    (is_together 0 4 (groups_of 5 edges flags) ≡ true)
    ↔ ((0 < 5) × (4 < 5) × Connected (merged_edges edges flags) 0 4)
groups_of-Connected_example = groups_of-Connected 5 edges flags 0 4

abbrev asset : String → String → KindMember
asset variant severity = record { variant = some variant; severity = severity }

abbrev ok_word : String
ok_word = "LOGISTICS_SEVERITY_OK"

abbrev bad_word : String
bad_word = "LOGISTICS_SEVERITY_CRITICAL"

abbrev text_first : String → String → Bool
text_first a b = true

abbrev crowd : List KindMember
crowd =
    asset "a" ok_word
    ∷ asset "b_radar" ok_word
    ∷ asset "c" bad_word
    ∷ asset "d_launcher" ok_word
    ∷ asset "e" ok_word
    ∷ asset "c" ok_word
    ∷ []

-- four faulted kinds of five: one of them is hidden
abbrev damaged : List KindMember
damaged =
    asset "a" bad_word
    ∷ asset "b" bad_word
    ∷ asset "c" bad_word
    ∷ asset "d" bad_word
    ∷ asset "e" ok_word
    ∷ []

hidden_fault : any is_faulted (kinds_of text_first damaged).hidden ≡ true
unfolding kinds_of is_faulted sev_rank group_from sort_by role_of lower_codes starts_with ends_with
hidden_fault = refl

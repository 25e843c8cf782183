-- ===== src/Clusters/Search.antt =====
-- The search of groupsOf (frontend/src/lib/clusterKinds.ts) ends: as many rounds as there are merged
-- edges are enough.
use openddil_demo.Base.{ℕ, ◌≡◌, sym, subst, true, List, length, eqb}
use openddil_demo.Clusters.{find, MstEdge, merge_all}
use openddil_demo.Clusters.Labels.{labels, find-Found, label_root, start-Grown}

-- After any merges a search for any index ends at a root of the array that it leaves, which is the label
-- of the index's class, within as many rounds as there were merges.
pub find_ends :
    (edges : List MstEdge) (i : ℕ)
    → let (array, root) = find (length edges) (merge_all (length edges) (λ j. j) edges) i in
      (eqb (array root) root ≡ true) × (root ≡ labels (λ j. j) edges i)
find_ends edges i =
    let grown = start-Grown edges in
    let c = labels (λ j. j) edges in
    let fuel = length edges in
    let p = merge_all fuel (λ j. j) edges in
    let found = find-Found c grown.height fuel p i grown.forest (grown.low i) in
    (
      subst (λ r. eqb ((find fuel p i).0 r) r ≡ true) (sym found.label)
          (label_root c grown.height (find fuel p i).0 found.forest fuel i (grown.low i)),
      found.label,
    )

-- ===== src/Move/Episode/March.antt =====
-- The episode starts at the asset's latest march order.
use openddil_demo.Base.{
  ℕ, ◌≤◌, String, ◌≡◌, refl, ◌∙◌, Bool, true, false, ◌&&◌, not, Option, none, some, List, [], ◌∷◌,
  ◌++◌, arith, ◌==◌, any, filter, All, leb, Option-cases, Bool-cases, inl, inr, subst, sym, Memᴰ,
  All-of_Memᴰ, All-filter,
}
use openddil_demo.Base.Sort.{any-sort_by, All-sort_by, Ascends, sort_by-Ascends}
use openddil_demo.Move.{ms}
use openddil_demo.Move.Episode.{
  PostureTransition, Episode, is_read, instant, at_ms, mine_of, is_march, from_last_march,
  until_march, episode_of, latest_episode,
}

no_march : (l : List PostureTransition) → from_last_march l ≡ none → any is_march l ≡ false
unfolding from_last_march
no_march [] h = refl
no_march (t ∷ ts) h = elim (Option-cases (from_last_march ts)) [
  | inl e ↦ ground (arith, no_march ts e)
  | inr (r, e) ↦ ground arith
]

module _ {κ} (P : PostureTransition → Type κ) where
  -- the start of an episode is one of the transitions
  from_last_march-All :
      (l : List PostureTransition) (m : PostureTransition) (after : List PostureTransition)
      → from_last_march l ≡ some (m, after)
      → All P l
      → P m
  unfolding from_last_march
  from_last_march-All [] m after e h = cc
  from_last_march-All (t ∷ ts) m after e (p, h) = elim (Option-cases (from_last_march ts)) [
    | inl k ↦ elim (Bool-cases (is_march t)) [
      | inl u ↦ subst P (ground arith) p
      | inr u ↦ absurd (ground arith)
    ]
    | inr ((n, rest), k) ↦ from_last_march-All ts m after (k ∙ ground arith) h
  ]

from_last_march-is_march :
    (l : List PostureTransition) (m : PostureTransition) (after : List PostureTransition)
    → from_last_march l ≡ some (m, after)
    → is_march m ≡ true
unfolding from_last_march
from_last_march-is_march [] m after e = cc
from_last_march-is_march (t ∷ ts) m after e = elim (Option-cases (from_last_march ts)) [
  | inl k ↦ elim (Bool-cases (is_march t)) [
    | inl u ↦ let same : t ≡ m = ground arith in subst (λ x. is_march x ≡ true) same u
    | inr u ↦ absurd (ground arith)
  ]
  | inr ((n, rest), k) ↦ from_last_march-is_march ts m after (k ∙ ground arith)
]

module _ (f : PostureTransition → ℕ) where
  abbrev later_march : PostureTransition → PostureTransition → Bool
  later_march m u = is_march u && not (leb (f u) (f m))

  no_later :
      (m : PostureTransition) (l : List PostureTransition)
      → any is_march l ≡ false
      → any (later_march m) l ≡ false
  no_later m [] h = refl
  no_later m (u ∷ l) h = ground (arith, no_later m l)

  from_last_march_latest :
      (l : List PostureTransition) (m : PostureTransition) (after : List PostureTransition)
      → from_last_march l ≡ some (m, after)
      → Ascends f l
      → any (later_march m) l ≡ false
  unfolding from_last_march
  from_last_march_latest [] m after e h = refl
  from_last_march_latest (t ∷ ts) m after e (a, h) = elim (Option-cases (from_last_march ts)) [
    | inl k ↦ ground (arith, no_later m ts (no_march ts k))
    | inr ((n, rest), k) ↦
        let same : from_last_march ts ≡ some (m, after) = k ∙ ground arith in
        ground (
          arith,
          from_last_march_latest ts m after same h,
          from_last_march-All (λ y. f t ≤ f y) ts m after same a,
        )
  ]

module _ (date_parse : String → Option ℕ) (asset_id : String) where
  abbrev read_at : PostureTransition → ℕ
  read_at t = instant (at_ms date_parse t)

  abbrev is_mine : PostureTransition → Bool
  is_mine t = t.subject == asset_id && is_read (at_ms date_parse t)

  filter-is_mine : (l : List PostureTransition) → All (λ t. is_mine t ≡ true) (filter is_mine l)
  filter-is_mine [] = tt
  filter-is_mine (t ∷ l) = elim (Bool-cases (is_mine t)) [
    | inl e ↦ rw e (e, filter-is_mine l)
    | inr e ↦ rw e (filter-is_mine l)
  ]

  any-filter-false :
      (p : PostureTransition → Bool) (pre : List PostureTransition) (t : PostureTransition)
      (post : List PostureTransition)
      → is_mine t ≡ true
      → any p (filter is_mine (pre ++ t ∷ post)) ≡ false
      → p t ≡ false
  any-filter-false p [] t post m h = ground arith
  any-filter-false p (u ∷ pre) t post m h = elim (Bool-cases (is_mine u)) [
    | inl e ↦ any-filter-false p pre t post m (ground arith)
    | inr e ↦ any-filter-false p pre t post m (ground arith)
  ]

  mine-All :
      (l : List PostureTransition) → All (λ t. is_mine t ≡ true) (mine_of date_parse l asset_id)
  unfolding mine_of
  mine-All l =
      All-sort_by (λ a b. leb (read_at a) (read_at b)) (λ t. is_mine t ≡ true) (filter is_mine l)
        (filter-is_mine l)

  mine-Memᴰ : (l : List PostureTransition) → All (λ t. Memᴰ t l) (mine_of date_parse l asset_id)
  unfolding mine_of
  mine-Memᴰ l =
      All-sort_by (λ a b. leb (read_at a) (read_at b)) (λ t. Memᴰ t l) (filter is_mine l)
        (All-filter (λ t. Memᴰ t l) is_mine l (All-of_Memᴰ (λ t. Memᴰ t l) l (λ x m. m)))

  mine-Ascends : (l : List PostureTransition) → Ascends read_at (mine_of date_parse l asset_id)
  unfolding mine_of
  mine-Ascends l = sort_by-Ascends read_at (filter is_mine l)

  mine-any :
      (p : PostureTransition → Bool) (l : List PostureTransition)
      → any p (mine_of date_parse l asset_id) ≡ any p (filter is_mine l)
  unfolding mine_of
  mine-any p l = any-sort_by (λ a b. leb (read_at a) (read_at b)) p (filter is_mine l)

  -- no test that fails throughout the asset's transitions holds at one of them
  mine-false :
      (p : PostureTransition → Bool) (pre : List PostureTransition) (t : PostureTransition)
      (post : List PostureTransition)
      → is_mine t ≡ true
      → any p (mine_of date_parse (pre ++ t ∷ post) asset_id) ≡ false
      → p t ≡ false
  mine-false p pre t post m h =
      any-filter-false p pre t post m (sym (mine-any p (pre ++ t ∷ post)) ∙ h)

  read-instant : (o : Option ℕ) → is_read o ≡ true → o ≡ some (instant o)
  read-instant none h = absurd (ground arith)
  read-instant (some t) h = refl

  latest_episode-some :
      (l : List PostureTransition) (m : PostureTransition) (after : List PostureTransition)
      → from_last_march (mine_of date_parse l asset_id) ≡ some (m, after)
      → latest_episode date_parse l asset_id ≡ some (episode_of m (until_march after))
  unfolding latest_episode
  latest_episode-some l m after e = rw (e, latest_episode) refl

  -- If one of the transitions is a march order of the asset whose time can be read, then the asset
  -- has an episode, and this starts at such a march order of this asset, one of the transitions, whose
  -- time is at least as late.
  pub latest_episode_start :
      (pre : List PostureTransition) (t : PostureTransition) (post : List PostureTransition)
      → (t.subject == asset_id) ≡ true
      → is_march t ≡ true
      → is_read (ms date_parse (some t.at)) ≡ true
      → (ep : Episode) × (u : PostureTransition) × (k : ℕ) × (latest_episode date_parse
            (pre ++ t ∷ post)
            asset_id
          ≡ some ep)
        × Memᴰ u (pre ++ t ∷ post)
        × ((u.subject == asset_id) ≡ true)
        × (is_march u ≡ true)
        × (ep.march_ordered_at ≡ u.at)
        × (ms date_parse (some u.at) ≡ some k)
        × (instant (ms date_parse (some t.at)) ≤ k)
  unfolding latest_episode episode_of
  latest_episode_start pre t post subject march read =
      let l = pre ++ t ∷ post in
      let s = mine_of date_parse l asset_id in
      let m : is_mine t ≡ true = ground arith in
      elim (Option-cases (from_last_march s)) [
        | inl e ↦ absurd (ground (arith, mine-false is_march pre t post m (no_march s e)))
        | inr ((n, after), e) ↦
            let own = from_last_march-All (λ u. is_mine u ≡ true) s n after e (mine-All l) in
            let last = from_last_march_latest read_at s n after e (mine-Ascends l) in
            (
              episode_of n (until_march after),
              n,
              read_at n,
              latest_episode-some l n after e,
              from_last_march-All (λ u. Memᴰ u l) s n after e (mine-Memᴰ l),
              ground arith,
              from_last_march-is_march s n after e,
              refl,
              read-instant (at_ms date_parse n) (ground arith),
              ground (arith, mine-false (later_march read_at n) pre t post m last),
            )
      ]

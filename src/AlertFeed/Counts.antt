-- ===== src/AlertFeed/Counts.antt =====
-- Folding repeats loses no event.
use openddil_demo.Base.{
  ℕ, zero, suc, ◌+◌, ◌<◌, ◌≤◌, String, ◌≡◌, refl, Option, some, List, [], ◌∷◌, ◌++◌, arith, sum_by,
  sum_by-append, length, length-append, Option-cases, Bool-cases, inl, inr, ◌==◌, subst,
}
use openddil_demo.Base.Dict
use openddil_demo.Base.Dict.{Dict, get-put}
use openddil_demo.AlertFeed.{
  TacticalEvent, FeedRow, Group, Feed, bump, is_near, start_row, join_row, fold_event, fold_events,
  collapse_repeats,
}

abbrev pub count_of : FeedRow → ℕ
count_of r = r.count

length-bump :
    (i : ℕ) (time : String) (rows : List FeedRow) → length (bump i time rows) ≡ length rows
unfolding bump
length-bump i time [] = refl
length-bump zero time (r ∷ rows) = refl
length-bump (suc i) time (r ∷ rows) = omega (arith, length-bump i time rows)

sum_by-bump :
    (i : ℕ) (time : String) (rows : List FeedRow)
    → i < length rows
    → sum_by count_of (bump i time rows) ≡ suc (sum_by count_of rows)
unfolding bump
sum_by-bump i time [] h = absurd (omega arith)
sum_by-bump zero time (r ∷ rows) h = omega arith
sum_by-bump (suc i) time (r ∷ rows) h = omega (arith, sum_by-bump i time rows (omega arith))

-- the open groups have their rows
abbrev InList : Feed → Type 0
InList feed =
    (k : String) (g : Group) → Dict.get k feed.groups ≡ some g → g.index < length feed.rows

-- one event more, in a feed whose groups have their rows
abbrev Grows : Feed → Feed → Type 0
Grows feed next = InList next × (sum_by count_of next.rows ≡ suc (sum_by count_of feed.rows))

-- a group that gets a row of the list, in a list that is no shorter
put-InList :
    (key : String) (own : Group) (feed : Feed) (rows : List FeedRow)
    → InList feed
    → length feed.rows ≤ length rows
    → own.index < length rows
    → InList (record { rows = rows; groups = Dict.put key own feed.groups })
put-InList key own feed rows h le i k g e = elim (Bool-cases (key == k)) [
  | inl same ↦ ground (arith, get-put key k own feed.groups)
  | inr other ↦ ground (arith, h k g, get-put key k own feed.groups)
]

start_row-Grows :
    (key : String) (t : Option ℕ) (event : TacticalEvent) (feed : Feed)
    → InList feed
    → Grows feed (start_row key t event feed)
unfolding start_row
start_row-Grows key t event feed h =
    let row : FeedRow = record { event = event; count = 1; first_time = event.time } in
    let longer = length-append feed.rows (row ∷ []) in
    (
      put-InList key (record { index = length feed.rows; oldest_ms = t }) feed
          (feed.rows ++ (row ∷ [])) h (omega (arith, longer)) (omega (arith, longer)),
      omega (arith, sum_by-append count_of feed.rows (row ∷ [])),
    )

join_row-Grows :
    (key : String) (t : Option ℕ) (event : TacticalEvent) (g : Group) (feed : Feed)
    → InList feed
    → g.index < length feed.rows
    → Grows feed (join_row key t event g feed)
unfolding join_row
join_row-Grows key t event g feed h i = (
  put-InList key (record g { oldest_ms = t }) feed (bump g.index event.time feed.rows) h
      (omega (arith, length-bump g.index event.time feed.rows))
      (omega (arith, i, length-bump g.index event.time feed.rows)),
  sum_by-bump g.index event.time feed.rows i,
)

none_grouped : InList (record { rows = []; groups = [] })
unfolding Dict.get
none_grouped k g e = absurd (ground arith)

module _ (date_parse : String → Option ℕ) (key_of : TacticalEvent → String) (window_ms : ℕ) where
  fold_event-Grows :
      (event : TacticalEvent) (feed : Feed)
      → InList feed
      → Grows feed (fold_event date_parse key_of window_ms event feed)
  unfolding fold_event
  fold_event-Grows event feed h =
      let key = key_of event in
      let t = date_parse event.time in
      elim (Option-cases (Dict.get key feed.groups)) [
        | inl e ↦ subst (Grows feed) (rw (e, fold_event) refl) (start_row-Grows key t event feed h)
        | inr (g, e) ↦ elim (Bool-cases (is_near window_ms g.oldest_ms t)) [
          | inl near ↦
              subst (Grows feed) (rw (e, fold_event) (rw near refl))
                (join_row-Grows key t event g feed h (h key g e))
          | inr far ↦
              subst (Grows feed) (rw (e, fold_event) (rw far refl))
                (start_row-Grows key t event feed h)
        ]
      ]

  sum_by-fold_events :
      (events : List TacticalEvent) (feed : Feed)
      → InList feed
      → sum_by count_of (fold_events date_parse key_of window_ms events feed).rows
        ≡ length events + sum_by count_of feed.rows
  unfolding fold_events
  sum_by-fold_events [] feed h = omega arith
  sum_by-fold_events (e ∷ events) feed h =
      let next = fold_event date_parse key_of window_ms e feed in
      let (own, grown) = fold_event-Grows e feed h in
      omega (arith, sum_by-fold_events events next own, grown)

  -- The counts of the rows add up to the number of the events, whatever the times and the window are.
  pub collapse_repeats_counts :
      (events : List TacticalEvent)
      → sum_by count_of (collapse_repeats date_parse key_of window_ms events) ≡ length events
  unfolding collapse_repeats
  collapse_repeats_counts events =
      omega (arith, sum_by-fold_events events (record { rows = []; groups = [] }) none_grouped)

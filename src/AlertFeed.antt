-- ===== src/AlertFeed.antt =====
-- frontend/src/lib/alertFeed.ts: `collapseRepeats`, which folds repeats of an event into one row. The
-- groups that are open share their row with the list: a group holds the row's place in it.
pub mod Counts
pub mod Words
mod Tests
use openddil_demo.Base.{
  ℕ, zero, suc, ◌+◌, ◌*◌, String, Bool, true, false, Option, none, some, List, [], ◌∷◌, ◌++◌, leb,
  if◌then◌else◌, length,
}
use openddil_demo.Base.Dict
use openddil_demo.Base.Dict.{Dict}

-- the fields that the folding reads
pub record TacticalEvent : Type 0 where
  pub subject : String
  pub type : String
  pub severity : Option String
  pub time : String

pub record FeedRow : Type 0 where
  pub event : TacticalEvent
  pub count : ℕ
  pub first_time : String

pub record Group : Type 0 where
  pub index : ℕ
  pub oldest_ms : Option ℕ

pub record Feed : Type 0 where
  pub rows : List FeedRow
  pub groups : Dict Group

-- one more event of the row at a place
unfoldable pub bump : ℕ → String → List FeedRow → List FeedRow
bump i time [] = []
bump zero time (r ∷ rows) = record r { count = suc r.count; first_time = time } ∷ rows
bump (suc i) time (r ∷ rows) = r ∷ bump i time rows

-- `oldestMs - ms <= windowMs`, false at NaN
abbrev pub is_near : ℕ → Option ℕ → Option ℕ → Bool
is_near window_ms (some oldest) (some t) = leb oldest (t + window_ms)
is_near window_ms _ _ = false

unfoldable pub start_row : String → Option ℕ → TacticalEvent → Feed → Feed
start_row key t event feed = record {
  rows = feed.rows ++ (record { event = event; count = 1; first_time = event.time } ∷ []);
  groups = Dict.put key (record { index = length feed.rows; oldest_ms = t }) feed.groups;
}

unfoldable pub join_row : String → Option ℕ → TacticalEvent → Group → Feed → Feed
unfolding bump
join_row key t event g feed = record {
  rows = bump g.index event.time feed.rows;
  groups = Dict.put key (record g { oldest_ms = t }) feed.groups;
}

-- `key_of` stands for `JSON.stringify` of the subject, the type and the severity
module _ (date_parse : String → Option ℕ) (key_of : TacticalEvent → String) (window_ms : ℕ) where
  unfoldable pub fold_event : TacticalEvent → Feed → Feed
  unfolding start_row join_row
  fold_event event feed = elim (Dict.get (key_of event) feed.groups) [
    | none ↦ start_row (key_of event) (date_parse event.time) event feed
    | some g ↦
        if is_near window_ms g.oldest_ms (date_parse event.time)
        then join_row (key_of event) (date_parse event.time) event g feed
        else start_row (key_of event) (date_parse event.time) event feed
  ]

  unfoldable pub fold_events : List TacticalEvent → Feed → Feed
  unfolding fold_event
  fold_events [] feed = feed
  fold_events (e ∷ events) feed = fold_events events (fold_event e feed)

  unfoldable pub collapse_repeats : List TacticalEvent → List FeedRow
  unfolding fold_events
  collapse_repeats events = (fold_events events (record { rows = []; groups = [] })).rows

abbrev pub default_window_ms : ℕ
default_window_ms = 30 * 60000

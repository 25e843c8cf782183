-- ===== src/LinkStatus/Reading.antt =====
-- What a reading of a row claims, and what the counts say.
use openddil_demo.Base.{
  ℕ, suc, ◌+◌, ◌*◌, ◌/◌, ◌≤◌, ◌<◌, String, ◌≡◌, refl, Bool, true, Option, none, some, List, [], ◌∷◌,
  arith, ◌==◌, ltb, length, all, filter, eqb, ◌↔◌, ap, ◌∙◌, Option-cases, inl, inr, if◌then◌else◌,
  ◌&&◌,
}
use native.Mathlib.Nat.{div-lt_iff_lt-mul}
use openddil_demo.Json.{Decimal, power_of_ten, power_of_ten-pos}
use openddil_demo.Move.{ms}
use openddil_demo.LinkStatus.{
  LinkState, LinkStatusRow, LinkReading, LinkCounts, link_row_stale_ms, classify_link, count_state,
  summarize_from, summarize_links, is_down, all_links_down, up, idle, down, unknown,
}

-- A row is outdated exactly if its age exceeds the exact limit.
link_row_stale_ms_exact :
    (heartbeat_s : Decimal) (age : ℕ)
    → (link_row_stale_ms heartbeat_s < age) ↔ (
        (2 * heartbeat_s.digits + 10 * power_of_ten heartbeat_s.scale) * 1000
        < age * power_of_ten heartbeat_s.scale)
unfolding link_row_stale_ms
link_row_stale_ms_exact heartbeat_s age = div-lt_iff_lt-mul (power_of_ten-pos heartbeat_s.scale)

-- A link is read as up exactly if its row is there and says so, and the row's time can be read and is
-- at most two heartbeats and ten seconds old.
pub classify_link-up :
    (date_parse : String → Option ℕ) (heartbeat_s : Decimal) (row : Option LinkStatusRow)
    (now_ms : ℕ)
    → ((classify_link date_parse heartbeat_s row now_ms).state ≡ up) ↔ (
        (r : LinkStatusRow) × (t : ℕ) × (row ≡ some r)
        × (ms date_parse r.updated_at ≡ some t)
        × (now_ms
            ≤ t
              + (2 * heartbeat_s.digits + 10 * power_of_ten heartbeat_s.scale)
                * 1000
                / power_of_ten heartbeat_s.scale)
        × ((r.link_state == "up") ≡ true))
unfolding classify_link link_row_stale_ms
classify_link-up date_parse heartbeat_s none now_ms =
    (λ h. absurd (ground arith), λ (r, t, e, k, a, w). absurd (ground arith))
classify_link-up date_parse heartbeat_s (some row) now_ms = (
  λ h. elim (Option-cases (ms date_parse row.updated_at)) [
    | inl e ↦ absurd (ground arith)
    | inr (t, e) ↦ (row, t, refl, e, ground arith, ground arith)
  ],
  λ (r, t, e, k, a, w). ground arith,
)

abbrev pub total : LinkCounts → ℕ
total c = c.up + c.idle + c.down + c.unknown

total-count_state : (s : LinkState) (c : LinkCounts) → total (count_state s c) ≡ suc (total c)
total-count_state up c = omega arith
total-count_state idle c = omega arith
total-count_state down c = omega arith
total-count_state unknown c = omega arith

pub total-summarize_from :
    (c : LinkCounts) (links : List LinkReading)
    → (total (summarize_from c links) ≡ total c + length links)
unfolding summarize_from
total-summarize_from c [] = omega arith
total-summarize_from c (l ∷ links) =
    omega (arith, total-summarize_from (count_state l.state c) links, total-count_state l.state c)

down-count_state :
    (l : LinkReading) (c : LinkCounts)
    → (count_state l.state c).down ≡ c.down + (if is_down l then 1 else 0)
down-count_state l c = grind arith

down-summarize_from :
    (c : LinkCounts) (links : List LinkReading)
    → (summarize_from c links).down ≡ c.down + length (filter is_down links)
unfolding summarize_from
down-summarize_from c [] = omega arith
down-summarize_from c (l ∷ links) =
    ground (arith, down-summarize_from (count_state l.state c) links, down-count_state l c)

length-filter : (links : List LinkReading) → length (filter is_down links) ≤ length links
length-filter [] = omega arith
length-filter (l ∷ links) = ground (arith, length-filter links)

all-filter :
    (links : List LinkReading)
    → all is_down links ≡ eqb (length (filter is_down links)) (length links)
all-filter [] = ground arith
all-filter (l ∷ links) = ground (arith, all-filter links, length-filter links)

same_eqb : (a b n : ℕ) → a ≡ b → eqb a n ≡ eqb b n
same_eqb a b n h = ap (λ m. eqb m n) h

abbrev zero_counts : LinkCounts
zero_counts = record { up = 0; idle = 0; down = 0; unknown = 0 }

some_link : (n : ℕ) (b : Bool) → b ≡ (ltb 0 (suc n) && b)
some_link n b = ground arith

-- The four counts add up to the number of links, and the links are said to be all down exactly if
-- there is one and the count of those down is that number.
pub summarize_links_counts :
    (links : List LinkReading)
    → ((summarize_links links).up
          + (summarize_links links).idle
          + (summarize_links links).down
          + (summarize_links links).unknown
        ≡ length links)
      × (all_links_down links
          ≡ (ltb 0 (length links) && eqb (summarize_links links).down (length links)))
unfolding summarize_links all_links_down
summarize_links_counts [] = (refl, refl)
summarize_links_counts (l ∷ links) = (
  omega (arith, total-summarize_from zero_counts (l ∷ links)),
  (all-filter (l ∷ links)
        ∙ same_eqb (length (filter is_down (l ∷ links)))
            ((summarize_from zero_counts (l ∷ links)).down) (suc (length links))
            (omega (arith, down-summarize_from zero_counts (l ∷ links))))
      ∙ some_link (length links) (eqb (summarize_links (l ∷ links)).down (suc (length links))),
)

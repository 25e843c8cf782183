-- ===== src/LinkControl/Flight.antt =====
-- One click on a link's toggle, from the click to the answer of its POST, whatever listings the
-- poll reads and whatever happens to other links meanwhile.
use openddil_demo.Base.{
  String, ◌≡◌, ◌∙◌, Bool, true, not, Option, none, some, List, arith, eq_refl, ◌≢◌, All, map,
}
use openddil_demo.Json.{Fetched, failed, answered, is_ok}
use openddil_demo.LinkControl.{
  Controller, with_entry, current_value, known, is_in, set_called, set_answered, refreshed, run,
  forbidden, Event,
}
use openddil_demo.LinkControl.Values.{
  current_value-with_entry_self, current_value-with_entry_ne, known-with_entry,
}
use openddil_demo.LinkControl.Apart.{IsListed, IsApart, Keeps, run-Keeps, refreshes-IsApart}

pub is_in-set_called :
    (t : String) (v : Bool) (c : Controller)
    → known t c.state ≡ true
    → is_in t (set_called t v c).in_flight ≡ true
unfolding set_called
is_in-set_called t v c h = ground (arith, eq_refl t)

state-set_called :
    (t : String) (v : Bool) (c : Controller)
    → known t c.state ≡ true
    → (set_called t v c).state ≡ with_entry t (some v) none c.state
unfolding set_called
state-set_called t v c h = rw h

pub known-set_called :
    (t : String) (v : Bool) (c : Controller)
    → known t c.state ≡ true
    → known t (set_called t v c).state ≡ true
known-set_called t v c h =
    rw (state-set_called t v c h) (rw (known-with_entry t t (some v) none c.state) h)

-- the click shows the wanted value, and marks the link as in flight
pub value-set_called :
    (t : String) (v : Bool) (c : Controller)
    → known t c.state ≡ true
    → current_value t (set_called t v c).state ≡ some v
value-set_called t v c h =
    rw (state-set_called t v c h) (current_value-with_entry_self t (some v) none c.state h)

in_flight :
    (t : String) (v : Bool) (c : Controller) (es : List Event)
    → known t c.state ≡ true
    → All (IsApart t) es
    → Keeps t (set_called t v c) (run es (set_called t v c))
in_flight t v c es h a =
    run-Keeps t es (set_called t v c) (is_in-set_called t v c h) (known-set_called t v c h) a

-- A click on a known link shows the wanted value, and leaves it there while its POST is in flight,
-- through any listings that have the link, any clicks on other links and answers to their POSTs, and
-- any answers to toxics.
pub click_in_flight :
    (t : String) (v : Bool) (c : Controller) (es : List Event)
    → known t c.state ≡ true
    → All (IsApart t) es
    → (current_value t (run es (set_called t v c)).state ≡ some v)
      × (is_in t (run es (set_called t v c)).in_flight ≡ true)
click_in_flight t v c es h a =
    let k = in_flight t v c es h a in
    (k.value ∙ value-set_called t v c h, k.flying ∙ is_in-set_called t v c h)

-- the POST failed or was refused
unfoldable pub is_refused : Fetched → Bool
is_refused failed = true
is_refused (answered status body) = not (is_ok status)

current_value-refused :
    (t : String) (previous : Option Bool) (res : Fetched) (c : Controller)
    → is_refused res ≡ true
    → known t c.state ≡ true
    → current_value t (set_answered t previous res c).state ≡ previous
unfolding set_answered is_refused
current_value-refused t previous failed c r h =
    current_value-with_entry_self t previous none c.state h
current_value-refused t previous (answered status body) c r h = ground (
  arith,
  current_value-with_entry_self t previous none c.state h,
  current_value-with_entry_self t previous (some forbidden) c.state h,
)

-- A click whose POST fails or is refused leaves the link at the value it had before the click,
-- whatever listings were read meanwhile, if they all had the link.
pub click_refused :
    (t : String) (v : Bool) (c : Controller) (answers : List Fetched) (res : Fetched)
    → known t c.state ≡ true
    → All (IsListed t) answers
    → is_refused res ≡ true
    → current_value t
        (set_answered t
          (current_value t c.state)
          res
          (run (map refreshed answers) (set_called t v c))).state
      ≡ current_value t c.state
click_refused t v c answers res h a r =
    current_value-refused t (current_value t c.state) res _ r
      (in_flight t v c (map refreshed answers) h (refreshes-IsApart t answers a)).there

-- A click and the answer to its POST change the value of no other link.
pub click_other :
    (t u : String) (v : Bool) (previous : Option Bool) (res : Fetched) (c : Controller)
    → t ≢ u
    → (current_value u (set_called t v c).state ≡ current_value u c.state)
      × (current_value u (set_answered t previous res c).state ≡ current_value u c.state)
unfolding set_called set_answered
click_other t u v previous failed c ne = (
  ground (arith, current_value-with_entry_ne t u (some v) none c.state ne),
  current_value-with_entry_ne t u previous none c.state ne,
)
click_other t u v previous (answered status body) c ne = (
  ground (arith, current_value-with_entry_ne t u (some v) none c.state ne),
  ground (
    arith,
    current_value-with_entry_ne t u previous none c.state ne,
    current_value-with_entry_ne t u previous (some forbidden) c.state ne,
  ),
)

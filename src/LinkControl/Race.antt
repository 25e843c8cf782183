-- ===== src/LinkControl/Race.antt =====
-- Two clicks on one link whose POSTs overlap, and the availability of the toggle.
use openddil_demo.Base.{
  ℕ, String, ◌≡◌, ◌∙◌, refl, Bool, true, false, Option, none, some, List, [], ◌∷◌, arith,
  if◌then◌else◌, ◌↔◌,
}
use openddil_demo.Json.{Value, Fetched, answered, is_ok}
use openddil_demo.LinkControl.{
  Controller, LinkControlStatus, ready, off, current_value, known, is_in, delete, set_called,
  set_answered, refresh_done, link_toggle_availability, link_toxics_availability, LinkToxics,
}
use openddil_demo.LinkControl.Apart.{IsListed, held}
use openddil_demo.LinkControl.Flight.{is_in-set_called, known-set_called, value-set_called}
use openddil_demo.LinkControl.Truth.{listing, holds, reported, refresh_done_value}

is_in-delete : (t : String) (set : List String) → is_in t (delete t set) ≡ false
is_in-delete t [] = refl
is_in-delete t (u ∷ set) = ground (arith, is_in-delete t set)

in_flight-set_answered :
    (t : String) (previous : Option Bool) (res : Fetched) (c : Controller)
    → is_in t (set_answered t previous res c).in_flight ≡ false
unfolding set_answered
in_flight-set_answered t previous res c = is_in-delete t c.in_flight

unguarded :
    (t : String) (c : Controller) (o : Option Value)
    → is_in t c.in_flight ≡ false
    → (if holds t c o then current_value t c.state else reported t o) ≡ reported t o
unguarded t c none h = refl
unguarded t c (some b) h = rw h

kept_if_ok :
    (t : String) (previous : Option Bool) (code : ℕ) (body : Option Value) (c : Controller)
    → is_ok code ≡ true
    → (set_answered t previous (answered code body) c).state ≡ c.state
unfolding set_answered
kept_if_ok t previous code body c ok = ground arith

-- If a known link is clicked twice before the first POST is answered, the second click shows its
-- value, and a listing that has the link leaves it there. But the first POST's success takes the link
-- out of flight, although the second POST is still out: it leaves the second click's value, and the
-- next listing then overwrites it with what it reports.
pub overlapping_clicks :
    (t : String) (v w : Bool) (code : ℕ) (body : Option Value) (poll : Fetched) (c : Controller)
    → known t c.state ≡ true
    → IsListed t poll
    → is_ok code ≡ true
    → let twice = set_called t w (set_called t v c) in
      let after = set_answered t (current_value t c.state) (answered code body) twice in
      (current_value t twice.state ≡ some w)
      × (is_in t twice.in_flight ≡ true)
      × (current_value t (refresh_done poll twice).state ≡ some w)
      × (current_value t after.state ≡ some w)
      × (is_in t after.in_flight ≡ false)
      × (current_value t (refresh_done poll after).state ≡ reported t (listing poll))
overlapping_clicks t v w code body poll c h li ok =
    let once = set_called t v c in
    let k = known-set_called t v c h in
    let twice = set_called t w once in
    let shown = value-set_called t w once k in
    let flying = is_in-set_called t w once k in
    let previous = current_value t c.state in
    let after = set_answered t previous (answered code body) twice in
    let landed = in_flight-set_answered t previous (answered code body) twice in
    (
      shown,
      flying,
      refresh_done_value t poll twice ∙ held t twice (listing poll) flying li ∙ shown,
      rw (kept_if_ok t previous code body twice ok) shown,
      landed,
      refresh_done_value t poll after ∙ unguarded t after (listing poll) landed,
    )

toggle_usable :
    (status : LinkControlStatus) (enabled : Option Bool) (from : String) (to : Option String)
    → (link_toggle_availability status enabled from to).disabled ≡ false
    → (status ≡ ready) × ((b : Bool) × (enabled ≡ some b))
unfolding link_toggle_availability
toggle_usable ready (some b) from to h = (refl, (b, refl))
toggle_usable off _ from to h = cc
toggle_usable _ _ from to h = cc

toxics_usable :
    (status : LinkControlStatus) (toxics : Option LinkToxics)
    → (link_toxics_availability status toxics).disabled ≡ false
    → (status ≡ ready) × ((x : LinkToxics) × (toxics ≡ some x))
unfolding link_toxics_availability
toxics_usable ready (some x) h = (refl, (x, refl))
toxics_usable off _ h = cc
toxics_usable _ _ h = cc

-- A toggle can be used exactly when a listing was read and it told the link's state, and a group
-- of toxics exactly when it told those.
pub link_availability :
    (status : LinkControlStatus) (enabled : Option Bool) (toxics : Option LinkToxics)
    (from : String) (to : Option String)
    → (((link_toggle_availability status enabled from to).disabled ≡ false)
        ↔ ((status ≡ ready) × ((b : Bool) × (enabled ≡ some b))))
      × (((link_toxics_availability status toxics).disabled ≡ false)
          ↔ ((status ≡ ready) × ((x : LinkToxics) × (toxics ≡ some x))))
unfolding link_toggle_availability link_toxics_availability
link_availability status enabled toxics from to = (
  (toggle_usable status enabled from to, λ (e, (b, k)). rw (e, k)),
  (toxics_usable status toxics, λ (e, (x, k)). rw (e, k)),
)

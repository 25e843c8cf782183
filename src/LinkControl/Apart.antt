-- ===== src/LinkControl/Apart.antt =====
-- What the events that do not concern a link's own clicks leave as they found it, while a POST for the
-- link is in flight.
use openddil_demo.Base.{
  String, ◌≡◌, ◌∙◌, refl, Bool, true, false, Option, none, some, List, [], ◌∷◌, arith, any, eq_iff,
  if◌then◌else◌, ◌≢◌, All, map,
}
use openddil_demo.Json.{Value, Fetched, failed, answered}
use openddil_demo.LinkControl.{
  Controller, current_value, known, is_in, set_called, set_answered, refresh_done, refreshed, run,
  step, forbidden, kids_of, is_id, listed_child, delete, Event, clicked, posted, toxics_posted,
  toxics_answered,
}
use openddil_demo.LinkControl.Values.{current_value-with_entry_ne, known-with_entry}
use openddil_demo.LinkControl.Truth.{
  lists, listing, holds, reported, refresh_done_value, has_id, is_id-listed_child,
}

-- the answer carries a readable listing with an entry for the target
abbrev pub lists_in : String → Option Value → Bool
lists_in t none = false
lists_in t (some b) = lists t b

abbrev pub IsListed : String → Fetched → Type 0
IsListed t res = lists_in t (listing res) ≡ true

in_flight-refresh_done :
    (res : Fetched) (c : Controller) → (refresh_done res c).in_flight ≡ c.in_flight
unfolding refresh_done
in_flight-refresh_done failed c = refl
in_flight-refresh_done (answered status none) c = ground arith
in_flight-refresh_done (answered status (some b)) c = ground arith

any-listed :
    (t : String) (c : Controller) (vs : List Value)
    → any (λ d. is_id d t) (map (listed_child c) vs) ≡ any (λ v. has_id t v) vs
any-listed t c [] = refl
any-listed t c (v ∷ vs) = ground (arith, is_id-listed_child t c v, any-listed t c vs)

known-refresh_done :
    (t : String) (res : Fetched) (c : Controller)
    → IsListed t res
    → known t (refresh_done res c).state ≡ true
unfolding known refresh_done listing lists
known-refresh_done t failed c h = cc
known-refresh_done t (answered status none) c h = cc
known-refresh_done t (answered status (some b)) c h = ground (arith, any-listed t c (kids_of b))

is_in-delete_ne : (t u : String) (set : List String) → u ≢ t → is_in t (delete u set) ≡ is_in t set
is_in-delete_ne t u [] ne = refl
is_in-delete_ne t u (x ∷ set) ne =
    ground (arith, is_in-delete_ne t u set ne, eq_iff x u, eq_iff x t, ne)

-- the events that do not concern the target's own clicks and POSTs; a listing has the target
abbrev pub IsApart : String → Event → Type 0
IsApart t (refreshed res) = IsListed t res
IsApart t (clicked u v) = u ≢ t
IsApart t (posted u previous res) = u ≢ t
IsApart t (toxics_posted res) = Unit {0}

-- what the events between a click and its answer leave as they found it
pub record Keeps (t : String) (c d : Controller) : Type 0 where
  pub value : current_value t d.state ≡ current_value t c.state
  pub flying : is_in t d.in_flight ≡ is_in t c.in_flight
  pub there : known t d.state ≡ true

pub held :
    (t : String) (c : Controller) (o : Option Value)
    → is_in t c.in_flight ≡ true
    → lists_in t o ≡ true
    → (if holds t c o then current_value t c.state else reported t o) ≡ current_value t c.state
held t c none fl li = cc
held t c (some b) fl li = ground arith

module _ (t : String) (c : Controller) where
  refresh_done-Keeps :
      (res : Fetched) → is_in t c.in_flight ≡ true → IsListed t res → Keeps t c (refresh_done res c)
  refresh_done-Keeps res fl li = record {
    value = refresh_done_value t res c ∙ held t c (listing res) fl li;
    flying = rw (in_flight-refresh_done res c) refl;
    there = known-refresh_done t res c li;
  }

  set_called-Keeps :
      (u : String) (v : Bool) → u ≢ t → known t c.state ≡ true → Keeps t c (set_called u v c)
  unfolding set_called
  set_called-Keeps u v ne th = record {
    value = ground (arith, current_value-with_entry_ne u t (some v) none c.state ne);
    flying = ground (arith, eq_iff u t, ne);
    there = ground (arith, known-with_entry t u (some v) none c.state);
  }

  set_answered-Keeps :
      (u : String) (previous : Option Bool) (res : Fetched)
      → u ≢ t
      → known t c.state ≡ true
      → Keeps t c (set_answered u previous res c)
  unfolding set_answered
  set_answered-Keeps u previous failed ne th = record {
    value = current_value-with_entry_ne u t previous none c.state ne;
    flying = is_in-delete_ne t u c.in_flight ne;
    there = ground (arith, known-with_entry t u previous none c.state);
  }
  set_answered-Keeps u previous (answered status body) ne th = record {
    value = ground (
      arith,
      current_value-with_entry_ne u t previous none c.state ne,
      current_value-with_entry_ne u t previous (some forbidden) c.state ne,
    );
    flying = is_in-delete_ne t u c.in_flight ne;
    there = ground (
      arith,
      known-with_entry t u previous none c.state,
      known-with_entry t u previous (some forbidden) c.state,
    );
  }

  toxics_answered-Keeps :
      (res : Fetched) → known t c.state ≡ true → Keeps t c (toxics_answered res c)
  unfolding toxics_answered current_value known
  toxics_answered-Keeps failed th = record { value = refl; flying = refl; there = th }
  toxics_answered-Keeps (answered status body) th = record {
    value = ground arith;
    flying = ground arith;
    there = ground arith;
  }

  step-Keeps :
      (e : Event)
      → is_in t c.in_flight ≡ true
      → known t c.state ≡ true
      → IsApart t e
      → Keeps t c (step e c)
  unfolding step
  step-Keeps (refreshed res) fl th a = refresh_done-Keeps res fl a
  step-Keeps (clicked u v) fl th a = set_called-Keeps u v a th
  step-Keeps (posted u previous res) fl th a = set_answered-Keeps u previous res a th
  step-Keeps (toxics_posted res) fl th a = toxics_answered-Keeps res th

pub run-Keeps :
    (t : String) (es : List Event) (c : Controller)
    → is_in t c.in_flight ≡ true
    → known t c.state ≡ true
    → All (IsApart t) es
    → Keeps t c (run es c)
unfolding run
run-Keeps t [] c fl th h = record { value = refl; flying = refl; there = th }
run-Keeps t (e ∷ es) c fl th (a, h) =
    let k = step-Keeps t c e fl th a in
    let r = run-Keeps t es (step e c) (k.flying ∙ fl) k.there h in
    record { value = r.value ∙ k.value; flying = r.flying ∙ k.flying; there = r.there }

pub refreshes-IsApart :
    (t : String) (answers : List Fetched)
    → All (IsListed t) answers
    → All (IsApart t) (map refreshed answers)
refreshes-IsApart t [] h = tt
refreshes-IsApart t (res ∷ answers) (li, h) = (li, refreshes-IsApart t answers h)

-- ===== src/LinkControl/Truth.antt =====
-- What a listing says, and that the screen says nothing else.
use openddil_demo.Base.{
  String, ◌≡◌, refl, Bool, true, false, ◌&&◌, not, Option, none, some, List, [], ◌∷◌, arith, ◌==◌,
  map, any, find, eq_iff, Bool-cases, inl, inr, if◌then◌else◌,
}
use openddil_demo.Json.{
  Value, member, is_nullish, is_truthy, as_text, as_bool, Fetched, failed, answered, is_ok,
}
use openddil_demo.LinkControl.{
  LinkControlStatus, error, forbidden, ready, off, ChildLinkControl, LinkControlState, Controller,
  is_id, enabled_of, uplink_key, uplink_enabled, current_value, is_in, adopt, adopt_id,
  listed_uplink, listed_child, kids_of, unknown_state, forget_child, refresh_done,
}

abbrev pub has_id : String → Value → Bool
has_id t v = elim (as_text (member "id" v)) [ none ↦ false | some i ↦ i == t ]

abbrev pub said_of : Option Value → Option Bool
said_of none = none
said_of (some v) = as_bool (member "enabled" v)

-- the listing has an entry for the target
unfoldable pub lists : String → Value → Bool
lists t b =
    if t == uplink_key then is_truthy (member "uplink" b) else any (λ v. has_id t v) (kids_of b)

-- what the listing says of the target's link: up, cut, or nothing
unfoldable pub says : String → Value → Option Bool
says t b =
    if t == uplink_key
    then (if is_truthy (member "uplink" b)
        then as_bool (member "enabled" (member "uplink" b))
        else none)
    else said_of (find (λ v. has_id t v) (kids_of b))

-- the listing that an answer carries, if the controller can read it
unfoldable pub listing : Fetched → Option Value
listing failed = none
listing (answered status none) = none
listing (answered status (some b)) =
    if not (is_ok status) then none else if any is_nullish (kids_of b) then none else some b

abbrev pub reported : String → Option Value → Option Bool
reported t none = none
reported t (some b) = says t b

find-forget :
    (t : String) (cs : List ChildLinkControl)
    → enabled_of (find (λ c. is_id c t) (map forget_child cs)) ≡ none
find-forget t [] = refl
find-forget t (c ∷ cs) = ground (arith, find-forget t cs)

current_value-unknown :
    (t : String) (st : LinkControlStatus) (s : LinkControlState)
    → current_value t (unknown_state st s) ≡ none
unfolding current_value unknown_state
current_value-unknown t st s = ground (arith, find-forget t s.children)

listed_child-enabled :
    (t : String) (c : Controller) (v : Value)
    → has_id t v ≡ true
    → (listed_child c v).enabled
      ≡ (if is_in t c.in_flight then current_value t c.state else as_bool (member "enabled" v))
unfolding listed_child
listed_child-enabled t c v h = go (as_text (member "id" v)) h
  where
    go :
        (i : Option String)
        → (elim i [ none ↦ false | some j ↦ j == t ]) ≡ true
        → adopt_id i (member "enabled" v) c
          ≡ (if is_in t c.in_flight then current_value t c.state else as_bool (member "enabled" v))
    go none k = cc
    go (some j) k = rw ((eq_iff j t).0 k) (unfold adopt in refl)

pub is_id-listed_child :
    (t : String) (c : Controller) (v : Value) → is_id (listed_child c v) t ≡ has_id t v
unfolding listed_child
is_id-listed_child t c v = refl

find-listed :
    (t : String) (c : Controller) (vs : List Value)
    → enabled_of (find (λ d. is_id d t) (map (listed_child c) vs)) ≡ (
        if is_in t c.in_flight && any (λ v. has_id t v) vs
        then current_value t c.state
        else said_of (find (λ v. has_id t v) vs))
find-listed t c [] = ground arith
find-listed t c (v ∷ vs) = elim (Bool-cases (has_id t v)) [
  | inl e ↦ rw (is_id-listed_child t c v) (rw e (ground (arith, listed_child-enabled t c v e)))
  | inr e ↦ rw (is_id-listed_child t c v) (rw e (find-listed t c vs))
]

-- a target that has a POST in flight keeps its value if the listing has it
abbrev pub holds : String → Controller → Option Value → Bool
holds t c none = false
holds t c (some b) = is_in t c.in_flight && lists t b

uplink_enabled-listed :
    (c : Controller) (up : Value)
    → uplink_enabled (listed_uplink c up)
      ≡ (if is_truthy up then adopt uplink_key (member "enabled" up) c else none)
unfolding listed_uplink
uplink_enabled-listed c up = elim (Bool-cases (is_truthy up)) [ inl e ↦ rw e | inr e ↦ rw e ]

adopt_lem :
    (t : String) (v : Value) (c : Controller)
    → adopt t v c ≡ (if is_in t c.in_flight then current_value t c.state else as_bool v)
unfolding adopt
adopt_lem t v c = refl

current_value_child :
    (t : String) (s : LinkControlState)
    → (t == uplink_key) ≡ false
    → current_value t s ≡ enabled_of (find (λ d. is_id d t) s.children)
unfolding current_value
current_value_child t s e = rw e

current_value_uplink : (s : LinkControlState) → current_value uplink_key s ≡ uplink_enabled s.uplink
unfolding current_value
current_value_uplink s = refl

abbrev ready_state : Controller → Value → LinkControlState
ready_state c b = record {
  status = ready;
  uplink = listed_uplink c (member "uplink" b);
  children = map (listed_child c) (kids_of b);
}

ready_uplink :
    (c : Controller) (b : Value)
    → current_value uplink_key (ready_state c b) ≡ (
        if holds uplink_key c (some b) then current_value uplink_key c.state else says uplink_key b)
unfolding lists says
ready_uplink c b = ground (
  arith,
  current_value_uplink (ready_state c b),
  uplink_enabled-listed c (member "uplink" b),
  adopt_lem uplink_key (member "enabled" (member "uplink" b)) c,
)

ready_child :
    (t : String) (c : Controller) (b : Value)
    → (t == uplink_key) ≡ false
    → current_value t (ready_state c b)
      ≡ (if holds t c (some b) then current_value t c.state else says t b)
unfolding lists says
ready_child t c b e =
    ground (arith, current_value_child t (ready_state c b) e, find-listed t c (kids_of b))

ready_value :
    (t : String) (c : Controller) (b : Value)
    → current_value t (ready_state c b)
      ≡ (if holds t c (some b) then current_value t c.state else says t b)
ready_value t c b = elim (Bool-cases (t == uplink_key)) [
  | inl e ↦ rw ((eq_iff t uplink_key).0 e) (ready_uplink c b)
  | inr e ↦ ready_child t c b e
]

current_value_off :
    (t : String) → current_value t (record { status = off; uplink = none; children = [] }) ≡ none
unfolding current_value
current_value_off t = ground arith

-- After any answer to a refresh, what the screen shows of a link is what the answer's listing says
-- of it, and nothing if there is no readable listing; except that a link with a POST in flight
-- keeps its value if the listing has it.
pub refresh_done_value :
    (t : String) (res : Fetched) (c : Controller)
    → current_value t (refresh_done res c).state
      ≡ (if holds t c (listing res) then current_value t c.state else reported t (listing res))
unfolding listing refresh_done
refresh_done_value t failed c = current_value-unknown t error c.state
refresh_done_value t (answered status none) c = ground (
  arith,
  current_value-unknown t forbidden c.state,
  current_value-unknown t error c.state,
  current_value_off t,
)
refresh_done_value t (answered status (some b)) c = ground (
  arith,
  current_value-unknown t forbidden c.state,
  current_value-unknown t error c.state,
  current_value_off t,
  ready_value t c b,
)

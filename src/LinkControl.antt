-- ===== src/LinkControl.antt =====
-- frontend/src/lib/linkControl.ts: what the screen shows of a link, read from the proxies. Each
-- handler runs in pieces between its `await`s; each piece is one function here, so any interleaving
-- of calls and answers is a list of events.
pub mod Values
pub mod Apart
pub mod Flight
pub mod Truth
pub mod Race
mod Tests
use openddil_demo.Base.{
  ℕ, String, Bool, true, false, ◌||◌, not, Option, none, some, List, [], ◌∷◌, ◌==◌, map, any, find,
  filter, eqb, if◌then◌else◌, or_else, ◌⧺◌,
}
use openddil_demo.Json.{
  Decimal, Value, undefined, member, is_nullish, is_truthy, as_text, as_bool, as_num, as_list,
  Fetched, failed, answered, is_ok, object, array,
}

pub data LinkControlStatus : Type 0 where
  loading ready off forbidden error : LinkControlStatus

pub record LinkToxics : Type 0 where
  pub latency_ms : Decimal
  pub jitter_ms : Decimal
  pub bandwidth_kb_s : Decimal

pub record UplinkControl : Type 0 where
  pub parent : Option String
  pub enabled : Option Bool
  pub toxics : Option LinkToxics

-- An id that the listing gives as no text is `none`; it equals no target.
pub record ChildLinkControl : Type 0 where
  pub id : Option String
  pub enabled : Option Bool
  pub toxics : Option LinkToxics

pub record LinkControlState : Type 0 where
  pub status : LinkControlStatus
  pub uplink : Option UplinkControl
  pub children : List ChildLinkControl

-- the variables of `createLinkControlController`
pub record Controller : Type 0 where
  pub state : LinkControlState
  pub in_flight : List String

abbrev pub uplink_key : String
uplink_key = "uplink"

abbrev pub initial : Controller
initial = record {
  state = record { status = loading; uplink = none; children = [] };
  in_flight = [];
}

abbrev pub is_id : ChildLinkControl → String → Bool
is_id c target = elim c.id [ none ↦ false | some i ↦ i == target ]

abbrev pub set_state : LinkControlState → Controller → Controller
set_state next c = record c { state = next }

abbrev pub forget_uplink : Option UplinkControl → Option UplinkControl
forget_uplink none = none
forget_uplink (some u) = some (record u { enabled = none; toxics = none })

abbrev pub forget_child : ChildLinkControl → ChildLinkControl
forget_child c = record { id = c.id; enabled = none; toxics = none }

unfoldable pub unknown_state : LinkControlStatus → LinkControlState → LinkControlState
unknown_state status s = record {
  status = status;
  uplink = forget_uplink s.uplink;
  children = map forget_child s.children;
}

abbrev pub all_three : Option Decimal → Option Decimal → Option Decimal → Option LinkToxics
all_three (some l) (some j) (some b) =
    some (record { latency_ms = l; jitter_ms = j; bandwidth_kb_s = b })
all_three _ _ _ = none

unfoldable pub parse_toxics : Value → Option LinkToxics
parse_toxics listed =
    all_three (as_num (member "latency_ms" listed)) (as_num (member "jitter_ms" listed))
      (as_num (member "bandwidth_kb_s" listed))

abbrev pub enable_uplink : Bool → Option Bool → Option UplinkControl → Option UplinkControl
enable_uplink true enabled (some u) = some (record u { enabled = enabled })
enable_uplink _ enabled u = u

abbrev pub enable_child : String → Option Bool → ChildLinkControl → ChildLinkControl
enable_child target enabled c = if is_id c target then record c { enabled = enabled } else c

unfoldable pub with_entry :
    String → Option Bool → Option LinkControlStatus → LinkControlState → LinkControlState
with_entry target enabled status s = record {
  status = or_else status s.status;
  uplink = enable_uplink (target == uplink_key) enabled s.uplink;
  children = map (enable_child target enabled) s.children;
}

abbrev pub enabled_of : Option ChildLinkControl → Option Bool
enabled_of none = none
enabled_of (some c) = c.enabled

abbrev pub uplink_enabled : Option UplinkControl → Option Bool
uplink_enabled none = none
uplink_enabled (some u) = u.enabled

unfoldable pub current_value : String → LinkControlState → Option Bool
current_value target s =
    if target == uplink_key
    then uplink_enabled s.uplink
    else enabled_of (find (λ c. is_id c target) s.children)

abbrev pub is_there {ℓ} : {A : Type ℓ} → Option A → Bool
is_there none = false
is_there (some a) = true

unfoldable pub known : String → LinkControlState → Bool
known target s =
    if target == uplink_key then is_there s.uplink else any (λ c. is_id c target) s.children

abbrev pub is_in : String → List String → Bool
is_in target set = any (λ t. t == target) set

unfoldable pub adopt : String → Value → Controller → Option Bool
adopt target listed c =
    if is_in target c.in_flight then current_value target c.state else as_bool listed

-- an id that is no text is never in flight
abbrev pub adopt_id : Option String → Value → Controller → Option Bool
adopt_id none listed c = as_bool listed
adopt_id (some id) listed c = adopt id listed c

unfoldable pub listed_uplink : Controller → Value → Option UplinkControl
unfolding adopt
listed_uplink c up =
    if is_truthy up
    then some (record {
      parent = as_text (member "parent" up);
      enabled = adopt uplink_key (member "enabled" up) c;
      toxics = parse_toxics (member "toxics" up);
    })
    else none

unfoldable pub listed_child : Controller → Value → ChildLinkControl
unfolding adopt
listed_child c v = record {
  id = as_text (member "id" v);
  enabled = adopt_id (as_text (member "id" v)) (member "enabled" v) c;
  toxics = parse_toxics (member "toxics" v);
}

abbrev pub kids_of : Value → List Value
kids_of body = or_else (as_list (member "children" body)) []

-- The piece of `refresh` after its answer. Reading a entry of a null child throws, which ends in
-- the handler's `catch`.
unfoldable pub refresh_done : Fetched → Controller → Controller
unfolding listed_uplink listed_child unknown_state
refresh_done failed c = set_state (unknown_state error c.state) c
refresh_done (answered status body) c =
    if eqb status 404
    then set_state (record { status = off; uplink = none; children = [] }) c
    else if eqb status 401 || eqb status 403
    then set_state (unknown_state forbidden c.state) c
    else if not (is_ok status)
    then set_state (unknown_state error c.state) c
    else elim body [
      | none ↦ set_state (unknown_state error c.state) c
      | some b ↦
          if any is_nullish (kids_of b)
          then set_state (unknown_state error c.state) c
          else set_state
              (record {
                status = ready;
                uplink = listed_uplink c (member "uplink" b);
                children = map (listed_child c) (kids_of b);
              })
              c
    ]

-- `set` up to its POST: nothing happens for a target that is not known
unfoldable pub set_called : String → Bool → Controller → Controller
unfolding with_entry
set_called target value c =
    if known target c.state
    then record {
      state = with_entry target (some value) none c.state;
      in_flight = if is_in target c.in_flight then c.in_flight else target ∷ c.in_flight;
    }
    else c

abbrev pub delete : String → List String → List String
delete target set = filter (λ t. not (t == target)) set

-- The piece of `set` after the POST's answer, with the value that the call had captured; the
-- `refresh` that follows is an event of its own.
unfoldable pub set_answered : String → Option Bool → Fetched → Controller → Controller
unfolding with_entry
set_answered target previous res c =
    let next : LinkControlState = elim res [
      | failed ↦ with_entry target previous none c.state
      | answered status body ↦
          if eqb status 401 || eqb status 403
          then with_entry target previous (some forbidden) c.state
          else if not (is_ok status)
          then with_entry target previous none c.state
          else c.state
    ] in
    record { state = next; in_flight = delete target c.in_flight }

-- The piece of `setToxics` after the POST's answer; before it there is no change of state.
unfoldable pub toxics_answered : Fetched → Controller → Controller
toxics_answered failed c = c
toxics_answered (answered status body) c =
    if eqb status 401 || eqb status 403
    then set_state (record c.state { status = forbidden }) c
    else c

pub data Event : Type 0 where
  refreshed : Fetched → Event
  clicked : String → Bool → Event
  posted : String → Option Bool → Fetched → Event
  toxics_posted : Fetched → Event

unfoldable pub step : Event → Controller → Controller
unfolding refresh_done set_called set_answered toxics_answered
step (refreshed res) c = refresh_done res c
step (clicked target value) c = set_called target value c
step (posted target previous res) c = set_answered target previous res c
step (toxics_posted res) c = toxics_answered res c

unfoldable pub run : List Event → Controller → Controller
unfolding step
run [] c = c
run (e ∷ es) c = run es (step e c)

pub record Availability : Type 0 where
  pub show : Bool
  pub disabled : Bool
  pub title : String

abbrev pub unavailable_title : String
unavailable_title = "Link state unknown — failed to read proxy status"

abbrev pub forbidden_title : String
forbidden_title = "Link control: not authorised"

abbrev pub barred : String → Availability
barred title = record { show = true; disabled = true; title = title }

unfoldable pub link_toxics_availability : LinkControlStatus → Option LinkToxics → Availability
link_toxics_availability off toxics = record { show = false; disabled = true; title = "" }
link_toxics_availability forbidden toxics = barred forbidden_title
link_toxics_availability ready (some toxics) = record {
  show = true;
  disabled = false;
  title = "Latency, jitter and bandwidth on this link";
}
link_toxics_availability _ _ = barred unavailable_title

unfoldable pub link_toggle_availability :
    LinkControlStatus → Option Bool → String → Option String → Availability
link_toggle_availability off enabled from to = record { show = false; disabled = true; title = "" }
link_toggle_availability forbidden enabled from to = barred forbidden_title
link_toggle_availability ready (some enabled) from to = record {
  show = true;
  disabled = false;
  title = "Cut or restore the uplink from " ⧺ from ⧺ " to " ⧺ or_else to "its parent";
}
link_toggle_availability _ _ from to = barred unavailable_title

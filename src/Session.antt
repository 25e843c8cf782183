-- ===== src/Session.antt =====
-- The registries that the shared shape client writes to: frontend/src/lib/sessionExpiry.ts,
-- frontend/src/lib/shapeErrors.ts and frontend/src/lib/lastFailedRequest.ts. Their module variables are
-- one state. A listener is a number, and `told` records the calls that `emit` makes; the first listener
-- of the shape errors, which marks the snapshot, is part of the state's `dirty`.
pub mod Cached
pub mod Registry
mod Tests
use openddil_demo.Base.{
  ℕ, String, Bool, true, false, not, ◌||◌, Option, none, some, List, [], ◌∷◌, ◌++◌, ◌==◌, eqb, any,
  filter, if◌then◌else◌,
}
use openddil_demo.Base.Dict
use openddil_demo.Base.Dict.{Dict, is_some}
use openddil_demo.Base.Sort.{sort_by}

pub data ShapeErrorKind : Type 0 where
  unlabelable transport session : ShapeErrorKind

pub record ShapeError : Type 0 where
  pub table : String
  pub kind : ShapeErrorKind

pub record FailedRequest : Type 0 where
  pub method : String
  pub path : String
  pub status : Option ℕ
  pub detail : String
  pub at : ℕ

pub record Registries : Type 0 where
  pub expired : Bool
  pub expiry_listeners : List ℕ
  pub errors : Dict ShapeErrorKind
  pub listeners : List ℕ
  pub snapshot : List ShapeError
  pub dirty : Bool
  pub last : Option FailedRequest
  pub told : List ℕ

-- as the modules start
abbrev pub fresh : Registries
fresh = record {
  expired = false;
  expiry_listeners = [];
  errors = [];
  listeners = [];
  snapshot = [];
  dirty = true;
  last = none;
  told = [];
}

unfoldable pub mark_session_expired : Registries → Registries
mark_session_expired s =
    if s.expired then s else record s { expired = true; told = s.told ++ s.expiry_listeners }

-- `status` is that of the `FetchError`, `none` for any other error
unfoldable pub classify_shape_error : Bool → Option ℕ → Bool → Option ShapeErrorKind
classify_shape_error is_error status is_unlabelable_table =
    if not is_error then none else if is_unlabelable_table then some unlabelable else elim status [
      | none ↦ some transport
      | some code ↦ if eqb code 401 then some session else some transport
    ]

abbrev pub same_kind : ShapeErrorKind → ShapeErrorKind → Bool
same_kind unlabelable unlabelable = true
same_kind transport transport = true
same_kind session session = true
same_kind _ _ = false

abbrev pub is_kind : ShapeErrorKind → Option ShapeErrorKind → Bool
is_kind k none = false
is_kind k (some j) = same_kind j k

-- `emit`, after the map has changed
abbrev pub with_errors : Dict ShapeErrorKind → Registries → Registries
with_errors d s = record s { errors = d; dirty = true; told = s.told ++ s.listeners }

abbrev pub noticed : ShapeErrorKind → Registries → Registries
noticed session s = mark_session_expired s
noticed _ s = s

unfoldable pub report_shape_error : String → ShapeErrorKind → Registries → Registries
unfolding mark_session_expired
report_shape_error table kind s =
    let s1 = noticed kind s in
    if is_kind kind (Dict.get table s1.errors)
    then s1
    else with_errors (Dict.put table kind s1.errors) s1

unfoldable pub clear_shape_error : String → Registries → Registries
clear_shape_error table s =
    if not (is_some (Dict.get table s.errors))
    then s
    else with_errors (Dict.remove table s.errors) s

abbrev pub add_listener : ℕ → List ℕ → List ℕ
add_listener l ls = if any (λ k. eqb k l) ls then ls else ls ++ (l ∷ [])

abbrev pub delete_listener : ℕ → List ℕ → List ℕ
delete_listener l = filter (λ k. not (eqb k l))

abbrev pub rows_of : Dict ShapeErrorKind → List ShapeError
rows_of [] = []
rows_of ((table, kind) ∷ d) = record { table = table; kind = kind } ∷ rows_of d

pub data Call : Type 0 where
  report : String → ShapeErrorKind → Call
  clear : String → Call
  expire : Call
  subscribe unsubscribe subscribe_expiry unsubscribe_expiry : ℕ → Call
  fail : FailedRequest → Call
  read : Call

-- `locale_le a b` stands for `a.localeCompare(b) <= 0`
module _ (locale_le : String → String → Bool) where
  unfoldable pub listing : Dict ShapeErrorKind → List ShapeError
  listing d = sort_by (λ (a b : ShapeError). locale_le a.table b.table) (rows_of d)

  -- the state after the call, in which `snapshot` is what the call returns
  unfoldable pub get_shape_errors : Registries → Registries
  unfolding listing
  get_shape_errors s =
      if s.dirty then record s { snapshot = listing s.errors; dirty = false } else s

  unfoldable pub step : Registries → Call → Registries
  unfolding report_shape_error clear_shape_error mark_session_expired get_shape_errors
  step s (report table kind) = report_shape_error table kind s
  step s (clear table) = clear_shape_error table s
  step s expire = mark_session_expired s
  step s (subscribe l) = record s { listeners = add_listener l s.listeners }
  step s (unsubscribe l) = record s { listeners = delete_listener l s.listeners }
  step s (subscribe_expiry l) = record s { expiry_listeners = add_listener l s.expiry_listeners }
  step s (unsubscribe_expiry l) = record s {
    expiry_listeners = delete_listener l s.expiry_listeners;
  }
  step s (fail r) = record s { last = some r }
  step s read = get_shape_errors s

  unfoldable pub run : Registries → List Call → Registries
  unfolding step
  run s [] = s
  run s (c ∷ cs) = run (step s c) cs

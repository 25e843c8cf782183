-- ===== src/Move/Ledger/Totals.antt =====
-- The totals of a ledger row in terms of the launches and resupplies that were handed in.
use openddil_demo.Base.{
  ℕ, ◌+◌, String, ◌≡◌, refl, ◌∙◌, ◌&&◌, Option, none, some, List, [], ◌∷◌, ◌++◌, arith, ◌==◌,
  if◌then◌else◌, sum_by, sum_by-append,
}
use openddil_demo.Base.Sort.{sum_by-sort_by}
use openddil_demo.Move.{ms, at_most}
use openddil_demo.Move.Ledger.{
  LedgerFire, LedgerResupply, LedgerDeclared, Kind, fire, resupply, Ev, in_time, ev_le, fire_events,
  resupply_events, events, Tally, zero_tally, count_one, tally, ledger_row,
}

-- what an event adds to the fires, or to the resupplies, of a key
abbrev pub amount : Kind → Kind → ℕ → ℕ
amount fire fire q = q
amount resupply resupply q = q
amount _ _ q = 0

abbrev pub part : Kind → String → Ev → ℕ
part k key e = if e.key == key then amount k e.kind e.q else 0

pub fired-tally :
    (key : String) (es : List Ev) (a : Tally)
    → (tally key es a).fired ≡ a.fired + sum_by (part fire key) es
unfolding tally
fired-tally key [] a = omega arith
fired-tally key (e ∷ es) a =
    ground (arith, fired-tally key es (if e.key == key then count_one e.kind e.q a else a))

pub received-tally :
    (key : String) (es : List Ev) (a : Tally)
    → (tally key es a).received ≡ a.received + sum_by (part resupply key) es
unfolding tally
received-tally key [] a = omega arith
received-tally key (e ∷ es) a =
    ground (arith, received-tally key es (if e.key == key then count_one e.kind e.q a else a))

module _ (date_parse : String → Option ℕ) (as_of : ℕ) (key : String) where
  -- a launch of the key's type that is not after the instant counts with its quantity
  abbrev pub fired_in_time : LedgerFire → ℕ
  fired_in_time f =
      if f.munition_type == key && at_most (ms date_parse (some f.launched_at)) (some as_of)
      then f.quantity
      else 0

  abbrev pub received_in_time : LedgerResupply → ℕ
  received_in_time r =
      if r.munition_type == key && at_most (ms date_parse (some r.received_at)) (some as_of)
      then r.quantity
      else 0

  in_time-part :
      (k kind : Kind) (t : Option ℕ) (type : String) (q : ℕ)
      → sum_by (part k key) (in_time as_of t kind type q)
        ≡ (if type == key && at_most t (some as_of) then amount k kind q else 0)
  in_time-part k kind none type q = ground arith
  in_time-part k kind (some t) type q = ground arith

  fires_fire :
      (fires : List LedgerFire)
      → sum_by (part fire key) (fire_events date_parse as_of fires) ≡ sum_by fired_in_time fires
  unfolding fire_events
  fires_fire [] = refl
  fires_fire (f ∷ fires) =
      let t = ms date_parse (some f.launched_at) in
      omega (
        arith,
        sum_by-append (part fire key) (in_time as_of t fire f.munition_type f.quantity)
            (fire_events date_parse as_of fires),
        in_time-part fire fire t f.munition_type f.quantity,
        fires_fire fires,
      )

  fires_resupply :
      (fires : List LedgerFire)
      → sum_by (part resupply key) (fire_events date_parse as_of fires) ≡ 0
  unfolding fire_events
  fires_resupply [] = refl
  fires_resupply (f ∷ fires) =
      let t = ms date_parse (some f.launched_at) in
      ground (
        arith,
        sum_by-append (part resupply key) (in_time as_of t fire f.munition_type f.quantity)
            (fire_events date_parse as_of fires),
        in_time-part resupply fire t f.munition_type f.quantity,
        fires_resupply fires,
      )

  resupplies_resupply :
      (rs : List LedgerResupply)
      → sum_by (part resupply key) (resupply_events date_parse as_of rs)
        ≡ sum_by received_in_time rs
  unfolding resupply_events
  resupplies_resupply [] = refl
  resupplies_resupply (r ∷ rs) =
      let t = ms date_parse (some r.received_at) in
      omega (
        arith,
        sum_by-append (part resupply key) (in_time as_of t resupply r.munition_type r.quantity)
            (resupply_events date_parse as_of rs),
        in_time-part resupply resupply t r.munition_type r.quantity,
        resupplies_resupply rs,
      )

  resupplies_fire :
      (rs : List LedgerResupply) → sum_by (part fire key) (resupply_events date_parse as_of rs) ≡ 0
  unfolding resupply_events
  resupplies_fire [] = refl
  resupplies_fire (r ∷ rs) =
      let t = ms date_parse (some r.received_at) in
      ground (
        arith,
        sum_by-append (part fire key) (in_time as_of t resupply r.munition_type r.quantity)
            (resupply_events date_parse as_of rs),
        in_time-part fire resupply t r.munition_type r.quantity,
        resupplies_fire rs,
      )

  events_parts :
      (k : Kind) (fires : List LedgerFire) (rs : List LedgerResupply)
      → sum_by (part k key) (events date_parse as_of fires rs)
        ≡ sum_by (part k key) (fire_events date_parse as_of fires)
          + sum_by (part k key) (resupply_events date_parse as_of rs)
  unfolding events
  events_parts k fires rs =
      sum_by-sort_by ev_le (part k key)
        (fire_events date_parse as_of fires ++ resupply_events date_parse as_of rs)
      ∙ sum_by-append (part k key) (fire_events date_parse as_of fires)
          (resupply_events date_parse as_of rs)

  -- A row's fired figure is the total quantity of the launches of its type up to the instant, and its
  -- received figure that of the resupplies, in whatever order they were handed in.
  pub ledger_row_totals :
      (declared : LedgerDeclared) (iso : Option String) (fires : List LedgerFire)
      (rs : List LedgerResupply)
      → ((ledger_row declared iso (events date_parse as_of fires rs) key).fired.value
          ≡ sum_by fired_in_time fires)
        × ((ledger_row declared iso (events date_parse as_of fires rs) key).received.value
            ≡ sum_by received_in_time rs)
  unfolding ledger_row
  ledger_row_totals declared iso fires rs =
      let es = events date_parse as_of fires rs in
      (
        omega (
          arith,
          fired-tally key es zero_tally,
          events_parts fire fires rs,
          fires_fire fires,
          resupplies_fire rs,
        ),
        omega (
          arith,
          received-tally key es zero_tally,
          events_parts resupply fires rs,
          fires_resupply fires,
          resupplies_resupply rs,
        ),
      )

-- ===== src/Session/Registry.antt =====
-- What the registries hold after any calls.
use openddil_demo.Base.{
  String, ◌≡◌, refl, sym, ap, ◌∙◌, inl, inr, Bool, true, false, not, ◌||◌, Option, none, some, List,
  [], ◌∷◌, arith, ◌==◌, eq_iff, any, if◌then◌else◌, Bool-cases, subst,
}
use openddil_demo.Base.Dict
use openddil_demo.Base.Dict.{Dict, is_some}
use openddil_demo.Session.{
  ShapeErrorKind, session, transport, unlabelable, ShapeError, Registries, fresh,
  mark_session_expired, noticed, same_kind, is_kind, with_errors, report_shape_error,
  clear_shape_error, Call, report, clear, expire, subscribe, unsubscribe, subscribe_expiry,
  unsubscribe_expiry, fail, read, listing, get_shape_errors, step, run,
}
use openddil_demo.Session.Cached.{IsCached, run-IsCached}

-- a call that says that the session is over
abbrev pub ends_session : Call → Bool
ends_session (report table session) = true
ends_session expire = true
ends_session _ = false

abbrev pub error_after : Call → String → Option ShapeErrorKind → Option ShapeErrorKind
error_after (report table kind) k before = if table == k then some kind else before
error_after (clear table) k before = if table == k then none else before
error_after _ k before = before

-- the last word on a table
abbrev pub errors_after : List Call → String → Option ShapeErrorKind → Option ShapeErrorKind
errors_after [] k before = before
errors_after (c ∷ cs) k before = errors_after cs k (error_after c k before)

same_kind-eq : (a b : ShapeErrorKind) → same_kind a b ≡ true → a ≡ b
same_kind-eq unlabelable unlabelable h = refl
same_kind-eq transport transport h = refl
same_kind-eq session session h = refl
same_kind-eq unlabelable transport h = absurd (ground arith)
same_kind-eq unlabelable session h = absurd (ground arith)
same_kind-eq transport unlabelable h = absurd (ground arith)
same_kind-eq transport session h = absurd (ground arith)
same_kind-eq session unlabelable h = absurd (ground arith)
same_kind-eq session transport h = absurd (ground arith)

is_kind-some : (k : ShapeErrorKind) (o : Option ShapeErrorKind) → is_kind k o ≡ true → o ≡ some k
is_kind-some k none h = absurd (ground arith)
is_kind-some k (some j) h = ap some (same_kind-eq j k h)

mark-errors : (s : Registries) → (mark_session_expired s).errors ≡ s.errors
unfolding mark_session_expired
mark-errors s = elim (Bool-cases s.expired) [ inl e ↦ rw e refl | inr e ↦ rw e refl ]

noticed-errors : (kind : ShapeErrorKind) (s : Registries) → (noticed kind s).errors ≡ s.errors
noticed-errors unlabelable s = refl
noticed-errors transport s = refl
noticed-errors session s = mark-errors s

kept_entry :
    (table k : String) (v : Option ShapeErrorKind) (d : Dict ShapeErrorKind)
    → Dict.get table d ≡ v
    → Dict.get k d ≡ (if table == k then v else Dict.get k d)
kept_entry table k v d h = elim (Bool-cases (table == k)) [
  | inl e ↦ rw e (subst (λ x. Dict.get x d ≡ v) ((eq_iff table k).0 e) h)
  | inr e ↦ rw e refl
]

absent_entry : (o : Option ShapeErrorKind) → is_some o ≡ false → o ≡ none
absent_entry none h = refl
absent_entry (some k) h = absurd (ground arith)

-- a report that is skipped would not have changed the table's entry
put_or_keep :
    (table : String) (kind : ShapeErrorKind) (k : String) (s : Registries)
    → Dict.get k
        (if is_kind kind (Dict.get table s.errors)
          then s
          else with_errors (Dict.put table kind s.errors) s).errors
      ≡ (if table == k then some kind else Dict.get k s.errors)
put_or_keep table kind k s = elim (Bool-cases (is_kind kind (Dict.get table s.errors))) [
  | inl e ↦
      rw e (kept_entry table k (some kind) s.errors (is_kind-some kind (Dict.get table s.errors) e))
  | inr e ↦ rw e (Dict.get-put table k kind s.errors)
]

remove_or_keep :
    (table k : String) (s : Registries)
    → Dict.get k
        (if not (is_some (Dict.get table s.errors))
          then s
          else with_errors (Dict.remove table s.errors) s).errors
      ≡ (if table == k then none else Dict.get k s.errors)
remove_or_keep table k s = elim (Bool-cases (is_some (Dict.get table s.errors))) [
  | inl e ↦ rw e (Dict.get-remove table k s.errors)
  | inr e ↦ rw e (kept_entry table k none s.errors (absent_entry (Dict.get table s.errors) e))
]

get-errors_either :
    (b : Bool) (s : Registries) (l : List ShapeError)
    → (if b then record s { snapshot = l; dirty = false } else s).errors ≡ s.errors
get-errors_either true s l = refl
get-errors_either false s l = refl

mark-expired : (s : Registries) → (mark_session_expired s).expired ≡ true
unfolding mark_session_expired
mark-expired s = elim (Bool-cases s.expired) [ inl e ↦ rw e refl | inr e ↦ rw e refl ]

noticed-expired :
    (kind : ShapeErrorKind) (s : Registries)
    → (noticed kind s).expired ≡ (s.expired || same_kind kind session)
noticed-expired unlabelable s = ground arith
noticed-expired transport s = ground arith
noticed-expired session s = ground (arith, mark-expired s)

or_false : (b : Bool) → b ≡ (b || false)
or_false true = refl
or_false false = refl

either-expired :
    (b : Bool) (s t : Registries) → s.expired ≡ t.expired → (if b then s else t).expired ≡ s.expired
either-expired true s t h = refl
either-expired false s t h = sym h

ends-report :
    (table : String) (kind : ShapeErrorKind)
    → ends_session (report table kind) ≡ same_kind kind session
ends-report table unlabelable = refl
ends-report table transport = refl
ends-report table session = refl

module _ (locale_le : String → String → Bool) where
  step-errors :
      (s : Registries) (c : Call) (k : String)
      → Dict.get k (step locale_le s c).errors ≡ error_after c k (Dict.get k s.errors)
  unfolding step report_shape_error clear_shape_error get_shape_errors
  step-errors s (report table kind) k =
      subst
        (λ d.
          Dict.get k (report_shape_error table kind s).errors
          ≡ (if table == k then some kind else Dict.get k d))
        (noticed-errors kind s) (put_or_keep table kind k (noticed kind s))
  step-errors s (clear table) k = remove_or_keep table k s
  step-errors s expire k = ap (Dict.get k) (mark-errors s)
  step-errors s (subscribe l) k = refl
  step-errors s (unsubscribe l) k = refl
  step-errors s (subscribe_expiry l) k = refl
  step-errors s (unsubscribe_expiry l) k = refl
  step-errors s (fail r) k = refl
  step-errors s read k = ap (Dict.get k) (get-errors_either s.dirty s (listing locale_le s.errors))

  step-expired :
      (s : Registries) (c : Call) → (step locale_le s c).expired ≡ (s.expired || ends_session c)
  unfolding step report_shape_error clear_shape_error get_shape_errors
  step-expired s (report table kind) =
      either-expired _ (noticed kind s)
        (with_errors (Dict.put table kind (noticed kind s).errors) (noticed kind s)) refl
      ∙ (noticed-expired kind s ∙ ap (λ b. s.expired || b) (sym (ends-report table kind)))
  step-expired s (clear table) =
      either-expired _ s (with_errors (Dict.remove table s.errors) s) refl ∙ or_false s.expired
  step-expired s expire = ground (arith, mark-expired s)
  step-expired s (subscribe l) = or_false s.expired
  step-expired s (unsubscribe l) = or_false s.expired
  step-expired s (subscribe_expiry l) = or_false s.expired
  step-expired s (unsubscribe_expiry l) = or_false s.expired
  step-expired s (fail r) = or_false s.expired
  step-expired s read =
      either-expired s.dirty (record s { snapshot = listing locale_le s.errors; dirty = false }) s
        refl
      ∙ or_false s.expired

  run-errors :
      (s : Registries) (cs : List Call) (k : String)
      → Dict.get k (run locale_le s cs).errors ≡ errors_after cs k (Dict.get k s.errors)
  unfolding run
  run-errors s [] k = refl
  run-errors s (c ∷ cs) k =
      run-errors (step locale_le s c) cs k ∙ ap (errors_after cs k) (step-errors s c k)

  run-expired :
      (s : Registries) (cs : List Call)
      → (run locale_le s cs).expired ≡ (s.expired || any ends_session cs)
  unfolding run
  run-expired s [] = or_false s.expired
  run-expired s (c ∷ cs) = ground (arith, run-expired (step locale_le s c) cs, step-expired s c)

  get-snapshot :
      (s : Registries)
      → IsCached locale_le s
      → (get_shape_errors locale_le s).snapshot ≡ listing locale_le s.errors
  unfolding get_shape_errors
  get-snapshot s h = elim (Bool-cases s.dirty) [ inl e ↦ rw e refl | inr e ↦ rw e (h e) ]

  -- After any calls since the start, the snapshot that is returned is the sorted listing of the tables in
  -- error; a table is in error exactly if the last word on it was a report, with the kind that this
  -- gave; and the session has expired exactly if a call said so, and then never recovers.
  pub run-registries :
      (cs : List Call)
      → ((get_shape_errors locale_le (run locale_le fresh cs)).snapshot
          ≡ listing locale_le (run locale_le fresh cs).errors)
        × ((k : String) → Dict.get k (run locale_le fresh cs).errors ≡ errors_after cs k none)
        × ((run locale_le fresh cs).expired ≡ any ends_session cs)
  unfolding Dict.get
  run-registries cs = (
    get-snapshot (run locale_le fresh cs)
        (run-IsCached locale_le fresh cs (λ h. absurd (ground arith))),
    run-errors fresh cs,
    run-expired fresh cs,
  )

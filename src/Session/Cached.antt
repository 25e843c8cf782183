-- ===== src/Session/Cached.antt =====
-- The snapshot of the shape errors that is cached is up to date unless it is marked.
use openddil_demo.Base.{
  String, ◌≡◌, refl, inl, inr, Bool, true, false, List, [], ◌∷◌, arith, if◌then◌else◌, Bool-cases,
}
use openddil_demo.Base.Dict
use openddil_demo.Base.Dict.{Dict, is_some}
use openddil_demo.Session.{
  ShapeErrorKind, session, transport, unlabelable, Registries, mark_session_expired, noticed,
  with_errors, report_shape_error, clear_shape_error, Call, report, clear, expire, subscribe,
  unsubscribe, subscribe_expiry, unsubscribe_expiry, fail, read, listing, get_shape_errors, step,
  run,
}

module _ (locale_le : String → String → Bool) where
  -- a snapshot that is not marked is up to date
  abbrev pub IsCached : Registries → Type 0
  IsCached s = s.dirty ≡ false → s.snapshot ≡ listing locale_le s.errors

  mark-IsCached : (s : Registries) → IsCached s → IsCached (mark_session_expired s)
  unfolding mark_session_expired
  mark-IsCached s h = elim (Bool-cases s.expired) [ inl e ↦ rw e h | inr e ↦ rw e h ]

  noticed-IsCached :
      (kind : ShapeErrorKind) (s : Registries) → IsCached s → IsCached (noticed kind s)
  noticed-IsCached unlabelable s h = h
  noticed-IsCached transport s h = h
  noticed-IsCached session s h = mark-IsCached s h

  dirty-IsCached : (d : Dict ShapeErrorKind) (s : Registries) → IsCached (with_errors d s)
  dirty-IsCached d s h = absurd (ground arith)

  either-IsCached :
      (b : Bool) (s t : Registries) → IsCached s → IsCached t → IsCached (if b then s else t)
  either-IsCached true s t h k = h
  either-IsCached false s t h k = k

  get-IsCached : (s : Registries) → IsCached s → IsCached (get_shape_errors locale_le s)
  unfolding get_shape_errors
  get-IsCached s h =
      either-IsCached s.dirty (record s { snapshot = listing locale_le s.errors; dirty = false }) s
        (λ e. refl) h

  step-IsCached : (s : Registries) (c : Call) → IsCached s → IsCached (step locale_le s c)
  unfolding step report_shape_error clear_shape_error
  step-IsCached s (report table kind) h =
      either-IsCached _ (noticed kind s) _ (noticed-IsCached kind s h)
        (dirty-IsCached (Dict.put table kind (noticed kind s).errors) (noticed kind s))
  step-IsCached s (clear table) h =
      either-IsCached _ s _ h (dirty-IsCached (Dict.remove table s.errors) s)
  step-IsCached s expire h = mark-IsCached s h
  step-IsCached s (subscribe l) h = h
  step-IsCached s (unsubscribe l) h = h
  step-IsCached s (subscribe_expiry l) h = h
  step-IsCached s (unsubscribe_expiry l) h = h
  step-IsCached s (fail r) h = h
  step-IsCached s read h = get-IsCached s h

  pub run-IsCached : (s : Registries) (cs : List Call) → IsCached s → IsCached (run locale_le s cs)
  unfolding run
  run-IsCached s [] h = h
  run-IsCached s (c ∷ cs) h = run-IsCached (step locale_le s c) cs (step-IsCached s c h)

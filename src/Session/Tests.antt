-- ===== src/Session/Tests.antt =====
-- Two feeds fail, the second for the session; the first recovers.
use openddil_demo.Base.{String, ◌≡◌, refl, none, List, [], ◌∷◌, any}
use openddil_demo.Base.Dict
use openddil_demo.Base.Sort.{text_le}
use openddil_demo.Session.{
  session, transport, fresh, Call, report, clear, subscribe, read, listing, get_shape_errors, run,
}
use openddil_demo.Session.Registry.{ends_session, errors_after, run-registries}

abbrev calls : List Call
calls = subscribe 7 ∷ report "b" transport ∷ read ∷ report "a" session ∷ clear "b" ∷ []

told_three_times : (run text_le fresh calls).told ≡ 7 ∷ 7 ∷ 7 ∷ []
unfolding run Dict.get Dict.put Dict.remove
told_three_times = refl

run-registries_example :
    ((get_shape_errors text_le (run text_le fresh calls)).snapshot
      ≡ listing text_le (run text_le fresh calls).errors)
    × ((k : String) → Dict.get k (run text_le fresh calls).errors ≡ errors_after calls k none)
    × ((run text_le fresh calls).expired ≡ any ends_session calls)
run-registries_example = run-registries text_le calls

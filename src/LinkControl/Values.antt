-- ===== src/LinkControl/Values.antt =====
-- The value that the screen shows for one target, under the updates of the controller's state.
use openddil_demo.Base.{
  String, ◌≡◌, refl, Bool, true, false, Option, none, some, List, [], ◌∷◌, arith, ◌==◌, map, any,
  find, eq_iff, Bool-cases, inl, inr, ◌≢◌,
}
use openddil_demo.LinkControl.{
  LinkControlStatus, ChildLinkControl, LinkControlState, is_id, enabled_of, enable_child,
  uplink_key, with_entry, current_value, known,
}

find-enable_self :
    (target : String) (v : Option Bool) (cs : List ChildLinkControl)
    → any (λ c. is_id c target) cs ≡ true
    → enabled_of (find (λ c. is_id c target) (map (enable_child target v) cs)) ≡ v
find-enable_self target v [] h = cc
find-enable_self target v (c ∷ cs) h = ground (arith, find-enable_self target v cs)

any-enable :
    (t target : String) (v : Option Bool) (cs : List ChildLinkControl)
    → any (λ c. is_id c t) (map (enable_child target v) cs) ≡ any (λ c. is_id c t) cs
any-enable t target v [] = refl
any-enable t target v (c ∷ cs) = ground (arith, any-enable t target v cs)

is_id_both : (c : ChildLinkControl) (t u : String) → is_id c t ≡ true → is_id c u ≡ true → t ≡ u
is_id_both c t u h k = go c.id h k
  where
    go :
        (i : Option String)
        → (elim i [ none ↦ false | some j ↦ j == t ]) ≡ true
        → (elim i [ none ↦ false | some j ↦ j == u ]) ≡ true
        → t ≡ u
    go none h k = cc
    go (some j) h k = ground (arith, eq_iff j t, eq_iff j u)

find-enable_ne :
    (t u : String) (v : Option Bool) (cs : List ChildLinkControl)
    → t ≢ u
    → enabled_of (find (λ c. is_id c u) (map (enable_child t v) cs))
      ≡ enabled_of (find (λ c. is_id c u) cs)
find-enable_ne t u v [] ne = refl
find-enable_ne t u v (c ∷ cs) ne = elim (Bool-cases (is_id c t)) [
  | inl e ↦ elim (Bool-cases (is_id c u)) [
    | inl k ↦ absurd (ne (is_id_both c t u e k))
    | inr k ↦ ground (arith, find-enable_ne t u v cs ne)
  ]
  | inr e ↦ ground (arith, find-enable_ne t u v cs ne)
]

pub known-with_entry :
    (t target : String) (v : Option Bool) (st : Option LinkControlStatus) (s : LinkControlState)
    → known t (with_entry target v st s) ≡ known t s
unfolding known with_entry
known-with_entry t target v st s = ground (arith, any-enable t target v s.children)

-- an entry that is known takes the value written
pub current_value-with_entry_self :
    (target : String) (v : Option Bool) (st : Option LinkControlStatus) (s : LinkControlState)
    → known target s ≡ true
    → current_value target (with_entry target v st s) ≡ v
unfolding current_value known with_entry
current_value-with_entry_self target v st s h = ground (arith, find-enable_self target v s.children)

-- and no other entry changes
pub current_value-with_entry_ne :
    (target t : String) (v : Option Bool) (st : Option LinkControlStatus) (s : LinkControlState)
    → target ≢ t
    → current_value t (with_entry target v st s) ≡ current_value t s
unfolding current_value with_entry
current_value-with_entry_ne target t v st s ne =
    ground (
      arith,
      find-enable_ne target t v s.children ne,
      eq_iff target uplink_key,
      eq_iff t uplink_key,
    )

-- ===== src/Clusters/Kinds/Shown.antt =====
-- What a cluster shows: every member once, and the faulted kinds first.
use openddil_demo.Base.{
  ℕ, zero, suc, ◌+◌, ◌≤◌, ◌≡◌, refl, ◌∙◌, String, Bool, true, false, List, [], ◌∷◌, ◌++◌, arith,
  any, All, filter, length, sum_by, sum_by-append, if◌then◌else◌, leb, Bool-cases, inl, inr, subst,
  or_else,
}
use openddil_demo.Base.Groups.{group_from, group_sum, sum_by-map, sum_by-group_from}
use openddil_demo.Base.Sorted.{sort_by-Ascends}
use openddil_demo.Base.Sort.{sort_by, sum_by-sort_by, length-sort_by, any-sort_by, Ascends}
use openddil_demo.Clusters.Kinds.{
  KindMember, Kind, kind_of_group, all_kinds, is_faulted, fault_rank, take, drop, KindsOf, kinds_of,
  order_le, pick_le, arranged,
}

module _ {ℓ} {A : Type ℓ} (f : A → ℕ) where
  sum_by-take : (n : ℕ) (l : List A) → sum_by f (take n l) + sum_by f (drop n l) ≡ sum_by f l
  sum_by-take n [] = omega arith
  sum_by-take zero (x ∷ l) = omega arith
  sum_by-take (suc n) (x ∷ l) = omega (arith, sum_by-take n l)

length-take : (n : ℕ) (l : List Kind) → length (take n l) ≤ n
length-take n [] = omega arith
length-take zero (x ∷ l) = omega arith
length-take (suc n) (x ∷ l) = omega (arith, length-take n l)

-- the members of a kind, added up by a figure
abbrev pub kind_sum : (KindMember → ℕ) → Kind → ℕ
kind_sum f k = sum_by f k.members

kind_sum-kind_of :
    (f : KindMember → ℕ) (g : String × List KindMember)
    → kind_sum f (kind_of_group g) ≡ group_sum f g
kind_sum-kind_of f (key, []) = refl
kind_sum-kind_of f (key, m ∷ ms) = refl

sum_by-all_kinds :
    (f : KindMember → ℕ) (members : List KindMember)
    → sum_by (kind_sum f) (all_kinds members) ≡ sum_by f members
unfolding all_kinds
sum_by-all_kinds f members =
    let key = λ (a : KindMember). or_else a.variant "" in
    omega (
      arith,
      sum_by-map kind_of_group (kind_sum f) (group_sum f) (kind_sum-kind_of f)
          (group_from key members []),
      sum_by-group_from key f members [],
    )

fewer_faulted : (l : List Kind) → length (filter is_faulted l) ≤ 0 → any is_faulted l ≡ false
fewer_faulted [] h = refl
fewer_faulted (x ∷ l) h = ground (arith, fewer_faulted l)

unranked :
    (n : ℕ) (l : List Kind) → All (λ y. 1 ≤ fault_rank y) l → any is_faulted (drop n l) ≡ false
unranked n [] h = refl
unranked zero (x ∷ l) (p, h) = ground (arith, unranked_all l h)
  where
    unranked_all : (l : List Kind) → All (λ y. 1 ≤ fault_rank y) l → any is_faulted l ≡ false
    unranked_all [] h = refl
    unranked_all (x ∷ l) (p, h) = ground (arith, unranked_all l h)
unranked (suc n) (x ∷ l) (p, h) = unranked n l h

-- where the faulted kinds stand first, those after the first `n` are not faulted
none_faulted :
    (n : ℕ) (l : List Kind)
    → Ascends fault_rank l
    → length (filter is_faulted l) ≤ n
    → any is_faulted (drop n l) ≡ false
none_faulted n [] a h = refl
none_faulted zero (x ∷ l) (b, a) h = fewer_faulted (x ∷ l) h
none_faulted (suc n) (x ∷ l) (b, a) h = elim (Bool-cases (is_faulted x)) [
  | inl e ↦ none_faulted n l a (ground arith)
  | inr e ↦ unranked n l (subst (λ r. All (λ y. r ≤ fault_rank y) l) (ground arith) b)
]

faults_of :
    (l : List Kind) → length (filter is_faulted l) ≡ sum_by (λ k. if is_faulted k then 1 else 0) l
faults_of [] = refl
faults_of (x ∷ l) = ground (arith, faults_of l)

module _ (locale_le : String → String → Bool) (x y : Kind) where
  pick_up : pick_le locale_le x y ≡ true → fault_rank x ≤ fault_rank y
  unfolding pick_le
  pick_up h = ground arith

  pick_down : pick_le locale_le x y ≡ false → fault_rank y ≤ fault_rank x
  unfolding pick_le
  pick_down h = ground arith

module _ (locale_le : String → String → Bool) where
  abbrev pub both : KindsOf → List Kind
  both k = k.shown ++ k.hidden

  arranged-sum :
      (f : Kind → ℕ) (kinds : List Kind)
      → sum_by f (both (arranged locale_le kinds)) ≡ sum_by f kinds
  unfolding arranged
  arranged-sum f kinds = elim (Bool-cases (leb (length kinds) 4)) [
    | inl e ↦ rw e (
        omega (
          arith,
          sum_by-append f (sort_by (order_le locale_le) kinds) [],
          sum_by-sort_by (order_le locale_le) f kinds,
        ))
    | inr e ↦
        let pick = sort_by (pick_le locale_le) kinds in
        rw e (
          omega (
            arith,
            sum_by-append f (sort_by (order_le locale_le) (take 3 pick))
                (sort_by (order_le locale_le) (drop 3 pick)),
            sum_by-sort_by (order_le locale_le) f (take 3 pick),
            sum_by-sort_by (order_le locale_le) f (drop 3 pick),
            sum_by-take f 3 pick,
            sum_by-sort_by (pick_le locale_le) f kinds,
          ))
  ]

  length-arranged : (kinds : List Kind) → length (arranged locale_le kinds).shown ≤ 4
  unfolding arranged
  length-arranged kinds = elim (Bool-cases (leb (length kinds) 4)) [
    | inl e ↦ rw e (ground (arith, length-sort_by (order_le locale_le) kinds))
    | inr e ↦
        let pick = sort_by (pick_le locale_le) kinds in
        rw e (omega (arith, length-sort_by (order_le locale_le) (take 3 pick), length-take 3 pick))
  ]

  arranged-faulted :
      (kinds : List Kind)
      → length (filter is_faulted kinds) ≤ 3
      → any is_faulted (arranged locale_le kinds).hidden ≡ false
  unfolding arranged
  arranged-faulted kinds h = elim (Bool-cases (leb (length kinds) 4)) [
    | inl e ↦ rw e refl
    | inr e ↦
        let pick = sort_by (pick_le locale_le) kinds in
        let count = sum_by-sort_by (pick_le locale_le) (λ k. if is_faulted k then 1 else 0) kinds in
        rw e (
          any-sort_by (order_le locale_le) is_faulted (drop 3 pick)
          ∙ none_faulted 3 pick
              (sort_by-Ascends fault_rank (pick_le locale_le) (pick_up locale_le)
                (pick_down locale_le) kinds)
              (omega (arith, count, faults_of kinds, faults_of pick)))
  ]

  -- A cluster shows or hides each of its members once: any figure of the members, summed over the
  -- kinds that are shown and those that are hidden, is its sum over the members. At most four kinds
  -- are shown.
  pub kinds_of_members :
      (members : List KindMember) (f : KindMember → ℕ)
      → (sum_by (kind_sum f) (both (kinds_of locale_le members)) ≡ sum_by f members)
        × (length (kinds_of locale_le members).shown ≤ 4)
  unfolding kinds_of
  kinds_of_members members f = (
    arranged-sum (kind_sum f) (all_kinds members) ∙ sum_by-all_kinds f members,
    length-arranged (all_kinds members),
  )

  -- If at most three kinds of a cluster are faulted, none that it hides is faulted.
  pub kinds_of_faulted :
      (members : List KindMember)
      → length (filter is_faulted (all_kinds members)) ≤ 3
      → any is_faulted (kinds_of locale_le members).hidden ≡ false
  unfolding kinds_of
  kinds_of_faulted members h = arranged-faulted (all_kinds members) h

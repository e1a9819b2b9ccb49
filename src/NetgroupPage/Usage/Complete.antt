-- ===== src/NetgroupPage/Usage/Complete.antt =====
-- Which names of a rule are reported: the warnings of web/src/components/netgroup-usage.tsx are
-- complete.
use mathlib.Core.List.{Memᴰ}
use ldapwarden.Prelude.{
  Bool-cases, Option-cases, JsString, ◌===◌, ===_refl, includes, unique_from, find, any-append, All,
  All-weaken, ◌≡◌, refl, ◌∙◌, subst, ◌≢◌, ◌⊎◌, inl, inr, Bool, true, false, ◌||◌, Option, none,
  some, List, [], ◌∷◌, ◌++◌, arith,
}
use ldapwarden.Prelude.Unlike.{includes-unique_from}
use ldapwarden.Netgroup.Types.{Netgroup, NetgroupsResponse}
use ldapwarden.Netgroup.Kind.{
  NetgroupSide, NetgroupSideFit, ok, ignored, partial, netgroup_kind, netgroup_side_fit,
}
use ldapwarden.Netgroup.KindLaws.{Names, other, netgroup_side_fit-Verdicts}
use ldapwarden.Netgroup.Lookup.{
  NetgroupResolution, found, absent, unknown, IsAnswer, is_complete, resolve_netgroup_by_name,
  named_netgroups, find-Mem, find-none,
}
use ldapwarden.NetgroupPage.Usage.{
  resolve, rule_names, Problem, misfit, check_name, check_names, problems,
}
use ldapwarden.NetgroupPage.Usage.Laws.{values_of, IsRight, problems-IsRight}

-- There is a problem about the name on the side.
abbrev pub IsReported : List Problem → NetgroupSide → JsString → Type 0
IsReported ps side name = (p : Problem) × Memᴰ p ps × (p.name ≡ name) × (p.side ≡ side)

-- Why a name is not reported: its search has no answer, or brings a netgroup of that name whose
-- triples have no names on the other side, or brings none and holds a part of the matches only.
abbrev pub IsExcused : (JsString → Option NetgroupsResponse) → NetgroupSide → JsString → Type 0
IsExcused answer side name =
    (answer name ≡ none)
    ⊎ ((page : NetgroupsResponse) × (answer name ≡ some page)
        × (((n : Netgroup) × Memᴰ n page.rows × (n.cn ≡ name) × (¬ Names (other side) n.triples))
            ⊎ ((is_complete page ≡ false) × All (λ n. n.cn ≢ name) page.rows)))

Mem-left : (p : Problem) (ps qs : List Problem) → Memᴰ p ps → Memᴰ p (ps ++ qs)
Mem-left p (q ∷ ps) qs (Memᴰ.head e) = Memᴰ.head e
Mem-left p (q ∷ ps) qs (Memᴰ.tail m) = Memᴰ.tail (Mem-left p ps qs m)
Mem-left p [] qs m = elim m [ ]

Mem-right : (p : Problem) (ps qs : List Problem) → Memᴰ p qs → Memᴰ p (ps ++ qs)
Mem-right p [] qs m = m
Mem-right p (q ∷ ps) qs m = Memᴰ.tail (Mem-right p ps qs m)

IsReported-left :
    (ps qs : List Problem) (side : NetgroupSide) (name : JsString)
    → IsReported ps side name
    → IsReported (ps ++ qs) side name
IsReported-left ps qs side name (p, m, e, f) = (p, Mem-left p ps qs m, e, f)

IsReported-right :
    (ps qs : List Problem) (side : NetgroupSide) (name : JsString)
    → IsReported qs side name
    → IsReported (ps ++ qs) side name
IsReported-right ps qs side name (p, m, e, f) = (p, Mem-right p ps qs m, e, f)

-- What a resolution leaves unreported on a side.
abbrev IsClear : NetgroupSide → NetgroupResolution → Type 0
IsClear side unknown = Unit {0}
IsClear side absent = ⊥
IsClear side (found n) = ¬ Names (other side) n.triples

misfit-told :
    (n : Netgroup) (name : JsString) (side : NetgroupSide) (fit : NetgroupSideFit)
    → netgroup_side_fit (netgroup_kind n) side ≡ fit
    → IsReported (misfit name (netgroup_kind n) side fit) side name ⊎ IsClear side (found n)
unfolding misfit
misfit-told n name side ok f =
    let (verdict, _, _) = netgroup_side_fit-Verdicts n side in inr (verdict.0 f)
misfit-told n name side ignored f = inl (_, Memᴰ.head refl, refl, refl)
misfit-told n name side partial f = inl (_, Memᴰ.head refl, refl, refl)

check_name-told :
    (side : NetgroupSide) (name : JsString) (r : NetgroupResolution)
    → IsReported (check_name side name r) side name ⊎ IsClear side r
unfolding check_name
check_name-told side name unknown = inr tt
check_name-told side name absent = inl (_, Memᴰ.head refl, refl, refl)
check_name-told side name (found n) =
    misfit-told n name side (netgroup_side_fit (netgroup_kind n) side) refl

-- A name of the values is reported, or its resolution is no problem.
abbrev IsToldBy : (JsString → NetgroupResolution) → List Problem → NetgroupSide → JsString → Type 0
IsToldBy resolution ps side name = IsReported ps side name ⊎ IsClear side (resolution name)

check_names-told :
    (resolution : JsString → NetgroupResolution) (side : NetgroupSide) (values : List JsString)
    → All (IsToldBy resolution (check_names resolution side values) side) values
unfolding check_names
check_names-told resolution side [] = tt
check_names-told resolution side (v ∷ values) =
    let mine = check_name side v (resolution v) in
    let others = check_names resolution side values in
    (
      elim (check_name-told side v (resolution v)) [
        | inl r ↦ inl (IsReported-left mine others side v r)
        | inr c ↦ inr c
      ],
      All-weaken values
          (λ name told. elim told [
            | inl r ↦ inl (IsReported-right mine others side name r)
            | inr c ↦ inr c
          ])
          (check_names-told resolution side values),
    )

includes_self : (xs : List JsString) → All (λ x. includes x xs ≡ true) xs
includes_self [] = tt
includes_self (x ∷ xs) =
    (rw (===_refl x) refl, All-weaken xs (λ y h. rw h (or_true (x === y))) (includes_self xs))
  where
    or_true : (b : Bool) → (b || true) ≡ true
    or_true b = ground arith

module _ (answer : JsString → Option NetgroupsResponse) (side : NetgroupSide) where
  row-IsExcused :
      (name : JsString) (page : NetgroupsResponse)
      → answer name ≡ some page
      → IsClear side (resolve_netgroup_by_name name (some page))
      → IsExcused answer side name
  unfolding resolve_netgroup_by_name
  row-IsExcused name page e c = elim (Option-cases (find (λ n. n.cn === name) page.rows)) [
    | inr (n, f) ↦
        let (listed, named) = find-Mem name page.rows n f in
        let r : resolve_netgroup_by_name name (some page) ≡ found n =
          rw (f, resolve_netgroup_by_name) refl in
        inr (page, e, inl (n, listed, named, subst (IsClear side) r c))
    | inl f ↦ elim (Bool-cases (is_complete page)) [
      | inl full ↦
          let r : resolve_netgroup_by_name name (some page) ≡ absent =
            rw (f, resolve_netgroup_by_name, full) refl in
          absurd (subst (IsClear side) r c)
      | inr part ↦ inr (page, e, inr (part, find-none name page.rows f))
    ]
  ]

  resolve-IsExcused :
      (names : List JsString) (name : JsString)
      → includes name names ≡ true
      → IsClear side (resolve names answer name)
      → IsExcused answer side name
  unfolding resolve
  resolve-IsExcused names name listed c = by_answer (answer name) refl (rw listed at c)
    where
      by_answer :
          (o : Option NetgroupsResponse)
          → answer name ≡ o
          → IsClear side (resolve_netgroup_by_name name o)
          → IsExcused answer side name
      by_answer none e c = inl e
      by_answer (some page) e c = row-IsExcused name page e c

  -- Every name of a side is one of the rule's.
  listed_names :
      (sudo_user sudo_host : List JsString)
      → All
          (λ name. includes name (rule_names sudo_user sudo_host) ≡ true)
          (named_netgroups (values_of side sudo_user sudo_host))
  unfolding rule_names
  listed_names sudo_user sudo_host = by_side side
    where
      joined :
          (name : JsString)
          → includes name (unique_from [] (named_netgroups sudo_user ++ named_netgroups sudo_host))
            ≡ (includes name (named_netgroups sudo_user)
                || includes name (named_netgroups sudo_host))
      joined name =
          includes-unique_from name [] (named_netgroups sudo_user ++ named_netgroups sudo_host)
          ∙ any-append (λ x. x === name) (named_netgroups sudo_user) (named_netgroups sudo_host)

      or_true : (b : Bool) → (b || true) ≡ true
      or_true b = ground arith

      by_side :
          (i : NetgroupSide)
          → All
              (λ name.
                includes name
                  (unique_from [] (named_netgroups sudo_user ++ named_netgroups sudo_host))
                ≡ true)
              (named_netgroups (values_of i sudo_user sudo_host))
      by_side NetgroupSide.users =
          All-weaken (named_netgroups sudo_user) (λ name h. joined name ∙ rw h refl)
            (includes_self (named_netgroups sudo_user))
      by_side NetgroupSide.hosts =
          All-weaken (named_netgroups sudo_host)
            (λ name h. joined name ∙ rw h (or_true (includes name (named_netgroups sudo_user))))
            (includes_self (named_netgroups sudo_host))

  All-both :
      {P Q R : JsString → Type 0} (xs : List JsString)
      → ((x : JsString) → P x → Q x → R x)
      → All P xs
      → All Q xs
      → All R xs
  All-both [] f h k = tt
  All-both (x ∷ xs) f (p, h) (q, k) = (f x p q, All-both xs f h k)

  side-told :
      (sudo_user sudo_host : List JsString)
      → All
          (λ name.
            IsReported
              (check_names
                (resolve (rule_names sudo_user sudo_host) answer)
                side
                (named_netgroups (values_of side sudo_user sudo_host)))
              side
              name
            ⊎ IsExcused answer side name)
          (named_netgroups (values_of side sudo_user sudo_host))
  side-told sudo_user sudo_host =
      let names = rule_names sudo_user sudo_host in
      All-both (named_netgroups (values_of side sudo_user sudo_host))
        (λ name listed told. elim told [
          | inl r ↦ inl r
          | inr c ↦ inr (resolve-IsExcused names name listed c)
        ])
        (listed_names sudo_user sudo_host)
        (check_names-told (resolve names answer) side
          (named_netgroups (values_of side sudo_user sudo_host)))

-- Each name of a side is reported on that side, or excused.
told :
    (answer : JsString → Option NetgroupsResponse) (sudo_user sudo_host : List JsString)
    (side : NetgroupSide)
    → All
        (λ name.
          IsReported (problems answer sudo_user sudo_host) side name ⊎ IsExcused answer side name)
        (named_netgroups (values_of side sudo_user sudo_host))
unfolding problems
told answer sudo_user sudo_host NetgroupSide.users =
    All-weaken (named_netgroups sudo_user)
      (λ name h. elim h [ inl r ↦ inl (IsReported-left _ _ _ name r) | inr c ↦ inr c ])
      (side-told answer NetgroupSide.users sudo_user sudo_host)
told answer sudo_user sudo_host NetgroupSide.hosts =
    All-weaken (named_netgroups sudo_host)
      (λ name h. elim h [ inl r ↦ inl (IsReported-right _ _ _ name r) | inr c ↦ inr c ])
      (side-told answer NetgroupSide.hosts sudo_user sudo_host)

-- Where each answer is drawn from the netgroups that match the search, every warning about a rule
-- is on a name that the field of its side holds behind a plus sign, and either no netgroup has that
-- name, or one has, and its triples have names on the other side: besides names on this one where
-- the fit is partial, and none on this one where it is ignored. And every name of a side is reported
-- on it, unless its search has no answer, brings a netgroup of that name without names on the other
-- side, or brings none of that name and holds a part of the matches only.
pub problems_exact :
    (matches : JsString → List Netgroup) (answer : JsString → Option NetgroupsResponse)
    (honest : (name : JsString) (page : NetgroupsResponse)
      → answer name ≡ some page
      → IsAnswer page (matches name))
    (sudo_user sudo_host : List JsString) (side : NetgroupSide)
    → All (IsRight matches sudo_user sudo_host) (problems answer sudo_user sudo_host)
      × All
          (λ name.
            IsReported (problems answer sudo_user sudo_host) side name ⊎ IsExcused answer side name)
          (named_netgroups (values_of side sudo_user sudo_host))
problems_exact matches answer honest sudo_user sudo_host side = (
  problems-IsRight matches answer honest sudo_user sudo_host,
  told answer sudo_user sudo_host side,
)

-- ===== src/Netgroup/Lookup.antt =====
-- Looking a "+name" reference up: `resolveNetgroupByName` and `namedNetgroups` of
-- web/src/lib/netgroup.ts.
use mathlib.Core.List.{Memᴰ}
use ldapwarden.Prelude.{
  ltb, leb, if◌then◌else◌, Bool-cases, and-eq-true, Option-cases, JsString, text, ◌===◌, ===_iff,
  is_empty, includes, starts_with, length, drop, filter, find, All, ◌≤◌, ◌≡◌, refl, ap, ◌∙◌, subst,
  ◌≢◌, inl, inr, Bool, true, not, ◌&&◌, Option, none, some, List, [], ◌∷◌, map, arith,
}
use ldapwarden.Netgroup.Types.{Netgroup, NetgroupsResponse}

pub data NetgroupResolution : Type 0 where
  found : Netgroup → NetgroupResolution
  absent unknown : NetgroupResolution

-- `truncated !== true`.
abbrev pub is_not_true : Option Bool → Bool
is_not_true none = true
is_not_true (some b) = not b

abbrev pub is_complete : NetgroupsResponse → Bool
is_complete page = is_not_true page.truncated && leb page.total (length page.rows)

unfoldable pub resolve_netgroup_by_name : JsString → Option NetgroupsResponse → NetgroupResolution
resolve_netgroup_by_name name none = unknown
resolve_netgroup_by_name name (some page) = elim (find (λ n. n.cn === name) page.rows) [
  | some exact ↦ found exact
  | none ↦ if is_complete page then absent else unknown
]

unfoldable pub named_netgroups : List JsString → List JsString
named_netgroups values =
    map (drop 1) (filter (λ v. starts_with (text "+") v && ltb 1 (length v)) values)

-- A part of a list, in its order.
pub data Sublist {A : Type 0} : List A → List A → Type 0 where
  nil : Sublist [] []
  skip : {x : A} {xs ys : List A} → Sublist xs ys → Sublist xs (x ∷ ys)
  keep : {x : A} {xs ys : List A} → Sublist xs ys → Sublist (x ∷ xs) (x ∷ ys)

module _ {A : Type 0} where
  length-Sublist : {xs ys : List A} → Sublist xs ys → length xs ≤ length ys
  length-Sublist nil = omega arith
  length-Sublist (skip s) = omega (arith, length-Sublist s)
  length-Sublist (keep s) = omega (arith, length-Sublist s)

  eq_of_Sublist : {xs ys : List A} → Sublist xs ys → length ys ≤ length xs → xs ≡ ys
  eq_of_Sublist nil h = refl
  eq_of_Sublist (skip s) h = absurd (omega (arith, length-Sublist s))
  eq_of_Sublist (keep {x} s) h = ap (◌∷◌ x) (eq_of_Sublist s (omega arith))

  Mem-Sublist : {xs ys : List A} {a : A} → Sublist xs ys → Memᴰ a xs → Memᴰ a ys
  Mem-Sublist (skip s) m = Memᴰ.tail (Mem-Sublist s m)
  Mem-Sublist (keep s) (Memᴰ.head e) = Memᴰ.head e
  Mem-Sublist (keep s) (Memᴰ.tail m) = Memᴰ.tail (Mem-Sublist s m)
  Mem-Sublist nil m = m

-- What the list endpoint promises of a page: its rows are drawn from the netgroups that match the
-- search, and unless it says that the search was truncated, `total` counts all of those.
pub record IsAnswer (page : NetgroupsResponse) (matches : List Netgroup) : Type 0 where
  pub drawn : Sublist page.rows matches
  pub counted : page.truncated ≢ some true → page.total ≡ length matches

-- What a resolution claims of the netgroups that the directory holds.
abbrev pub Claims : List Netgroup → JsString → NetgroupResolution → Type 0
Claims matches name (found n) = Memᴰ n matches × (n.cn ≡ name)
Claims matches name absent = All (λ n. n.cn ≢ name) matches
Claims matches name unknown = Unit

pub find-Mem :
    (name : JsString) (rows : List Netgroup) (n : Netgroup)
    → find (λ m. m.cn === name) rows ≡ some n
    → Memᴰ n rows × (n.cn ≡ name)
find-Mem name [] n e = cc
find-Mem name (m ∷ rows) n e = elim (Bool-cases (m.cn === name)) [
  | inl hit ↦
      let same : n ≡ m = ground arith in
      (Memᴰ.head same, ap (λ (x : Netgroup). x.cn) same ∙ (===_iff m.cn name).0 hit)
  | inr miss ↦ let (later, named) = find-Mem name rows n (ground arith) in (Memᴰ.tail later, named)
]

pub find-none :
    (name : JsString) (rows : List Netgroup)
    → find (λ m. m.cn === name) rows ≡ none
    → All (λ n. n.cn ≢ name) rows
find-none name [] e = tt
find-none name (m ∷ rows) e =
    (λ h. ground (arith, (===_iff m.cn name).1 h), find-none name rows (ground arith))

ne-true : (o : Option Bool) → is_not_true o ≡ true → o ≢ some true
ne-true o h e = ground arith

-- A netgroup reported as found is one of the directory's and has the name asked for; one reported
-- as absent is not in the directory at all, also when the page holds only a part of the matches.
pub resolve-Claims :
    (name : JsString) (page : NetgroupsResponse) (matches : List Netgroup)
    → IsAnswer page matches
    → Claims matches name (resolve_netgroup_by_name name (some page))
unfolding resolve_netgroup_by_name
resolve-Claims name page matches a = elim (Option-cases (find (λ n. n.cn === name) page.rows)) [
  | inl e ↦
      rw (e, resolve_netgroup_by_name)
        (elim (Bool-cases (is_complete page)) [
          | inl c ↦
              rw c (subst (All (λ n. n.cn ≢ name)) (rows-eq-matches c) (find-none name page.rows e))
          | inr c ↦ rw c tt
        ])
  | inr (n, e) ↦
      rw (e, resolve_netgroup_by_name)
        (let (listed, named) = find-Mem name page.rows n e in (Mem-Sublist a.drawn listed, named))
]
  where
    rows-eq-matches : is_complete page ≡ true → page.rows ≡ matches
    rows-eq-matches c =
        let both : (is_not_true page.truncated ≡ true)
            × (leb page.total (length page.rows) ≡ true) =
          and-eq-true c in
        eq_of_Sublist a.drawn (ground (arith, a.counted (ne-true _ both.0), both.1))

-- A page that holds all the matches settles the question.
pub resolve-ne-unknown :
    (name : JsString) (page : NetgroupsResponse) (matches : List Netgroup)
    → page.rows ≡ matches
    → page.total ≡ length matches
    → page.truncated ≢ some true
    → resolve_netgroup_by_name name (some page) ≢ unknown
unfolding resolve_netgroup_by_name
resolve-ne-unknown name page matches r t c = ground (arith, ap length r)

-- The names are those that stand behind a "+" in a value, the bare "+" left out.
pub includes-named_netgroups :
    (name : JsString) (values : List JsString)
    → includes name (named_netgroups values)
      ≡ (not (is_empty name) && includes (b'+' ∷ name) values)
unfolding named_netgroups ◌===◌
includes-named_netgroups name [] = ground arith
includes-named_netgroups name ([] ∷ values) = includes-named_netgroups name values
includes-named_netgroups name ((c ∷ []) ∷ values) =
    ground (arith, includes-named_netgroups name values)
includes-named_netgroups name ((c ∷ d ∷ v) ∷ values) =
    ground (arith, includes-named_netgroups name values)

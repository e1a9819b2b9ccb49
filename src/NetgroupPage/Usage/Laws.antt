-- ===== src/NetgroupPage/Usage/Laws.antt =====
-- What the warnings about a rule claim of the directory.
use mathlib.Core.List.{Memᴰ}
use ldapwarden.Prelude.{
  ltb, Bool-cases, JsString, text, includes, starts_with, length, All, All-append, All-weaken, ◌≡◌,
  refl, sym, subst, ◌≢◌, ◌⊎◌, inl, inr, true, false, ◌&&◌, Option, none, some, List, [], ◌∷◌, arith,
}
use ldapwarden.Netgroup.Types.{NetgroupTriple, Netgroup, NetgroupsResponse}
use ldapwarden.Netgroup.Kind.{
  NetgroupKind, NetgroupSide, NetgroupSideFit, ok, ignored, partial, names_slot, scan, kind_of,
  netgroup_kind, netgroup_side_fit,
}
use ldapwarden.Netgroup.KindLaws.{Names, other, netgroup_side_fit-Verdicts}
use ldapwarden.Netgroup.Lookup.{
  NetgroupResolution, found, absent, unknown, IsAnswer, Claims, resolve_netgroup_by_name,
  named_netgroups, resolve-Claims,
}
use ldapwarden.NetgroupPage.Usage.{
  resolve, rule_names, Problem, misfit, check_name, check_names, problems,
}

-- What a netgroup is that has names on one side only.
abbrev pub only : NetgroupSide → NetgroupKind
only NetgroupSide.users = NetgroupKind.users
only NetgroupSide.hosts = NetgroupKind.hosts

-- The field of the rule on a side.
abbrev pub values_of : NetgroupSide → List JsString → List JsString → List JsString
values_of NetgroupSide.users sudo_user sudo_host = sudo_user
values_of NetgroupSide.hosts sudo_user sudo_host = sudo_host

-- What is reported of a netgroup on a side, by the names in its triples: only the other side has
-- names, or both have.
abbrev pub IsMisfit : Netgroup → NetgroupSide → NetgroupKind → NetgroupSideFit → Type 0
IsMisfit n side kind fit =
    ((fit ≡ ignored)
      × (kind ≡ only (other side))
      × (¬ Names side n.triples)
      × Names (other side) n.triples)
    ⊎ ((fit ≡ partial)
        × (kind ≡ NetgroupKind.mixed)
        × Names side n.triples
        × Names (other side) n.triples)

-- What a problem on a side says of the netgroups that match the search for its name.
abbrev pub Says : (JsString → List Netgroup) → NetgroupSide → Problem → Type 0
Says matches side p = elim p.kind [
  | none ↦ (p.fit ≡ ignored) × All (λ n. n.cn ≢ p.name) (matches p.name)
  | some kind ↦
      (n : Netgroup) × Memᴰ n (matches p.name) × (n.cn ≡ p.name) × IsMisfit n side kind p.fit
]

-- A problem is about a name that the rule has on its side, and what it says is so.
abbrev pub IsRight : (JsString → List Netgroup) → List JsString → List JsString → Problem → Type 0
IsRight matches sudo_user sudo_host p =
    Memᴰ (b'+' ∷ p.name) (values_of p.side sudo_user sudo_host) × Says matches p.side p

-- A name of a side stands in its field, behind a plus sign.
named-Mem :
    (values : List JsString) → All (λ name. Memᴰ (b'+' ∷ name) values) (named_netgroups values)
unfolding named_netgroups
named-Mem [] = tt
named-Mem ([] ∷ vs) = All-weaken (named_netgroups vs) (λ n m. Memᴰ.tail m) (named-Mem vs)
named-Mem ((c ∷ name) ∷ vs) =
    elim (Bool-cases (starts_with (text "+") (c ∷ name) && ltb 1 (length (c ∷ name)))) [
      | inl e ↦
          let plus : c ≡ b'+' = ground arith in
          rw e (
            rw plus (Memᴰ.head refl),
            All-weaken (named_netgroups vs) (λ n m. Memᴰ.tail m) (named-Mem vs),
          )
      | inr e ↦ rw e (All-weaken (named_netgroups vs) (λ n m. Memᴰ.tail m) (named-Mem vs))
    ]

misfit_kind :
    (kind : NetgroupKind) (side : NetgroupSide)
    → ((netgroup_side_fit kind side ≡ ignored) → kind ≡ only (other side))
      × ((netgroup_side_fit kind side ≡ partial) → kind ≡ NetgroupKind.mixed)
unfolding netgroup_side_fit
misfit_kind NetgroupKind.users NetgroupSide.users = (λ e. cc, λ e. cc)
misfit_kind NetgroupKind.users NetgroupSide.hosts = (λ e. refl, λ e. cc)
misfit_kind NetgroupKind.hosts NetgroupSide.users = (λ e. refl, λ e. cc)
misfit_kind NetgroupKind.hosts NetgroupSide.hosts = (λ e. cc, λ e. cc)
misfit_kind NetgroupKind.mixed side = (λ e. cc, λ e. refl)
misfit_kind NetgroupKind.empty side = (λ e. cc, λ e. cc)

resolve_none : (name : JsString) → resolve_netgroup_by_name name none ≡ unknown
unfolding resolve_netgroup_by_name
resolve_none name = refl

module _ (matches : JsString → List Netgroup) (answer : JsString → Option NetgroupsResponse)
    (honest : (name : JsString) (page : NetgroupsResponse)
      → answer name ≡ some page
      → IsAnswer page (matches name)) where
  resolve-Right :
      (names : List JsString) (name : JsString)
      → Claims (matches name) name (resolve names answer name)
  unfolding resolve
  resolve-Right names name = elim (Bool-cases (includes name names)) [
    | inl e ↦ rw e (looked_up (answer name) refl)
    | inr e ↦ rw e tt
  ]
    where
      looked_up :
          (o : Option NetgroupsResponse)
          → answer name ≡ o
          → Claims (matches name) name (resolve_netgroup_by_name name o)
      looked_up none e = rw (resolve_none name) tt
      looked_up (some page) e = resolve-Claims name page (matches name) (honest name page e)

  -- A problem is on the side, and what it says is so.
  abbrev IsSo : NetgroupSide → Problem → Type 0
  IsSo side p = (p.side ≡ side) × Says matches side p

  misfit-IsSo :
      (n : Netgroup) (name : JsString) (side : NetgroupSide) (fit : NetgroupSideFit)
      → Memᴰ n (matches name)
      → n.cn ≡ name
      → netgroup_side_fit (netgroup_kind n) side ≡ fit
      → All (λ p. (p.name ≡ name) × IsSo side p) (misfit name (netgroup_kind n) side fit)
  unfolding misfit
  misfit-IsSo n name side ok m e f = tt
  misfit-IsSo n name side ignored m e f =
      let (_, verdict, _) = netgroup_side_fit-Verdicts n side in
      let (not_here, elsewhere) = verdict.0 f in
      let kind = (misfit_kind (netgroup_kind n) side).0 f in
      ((refl, (refl, (n, m, e, inl (refl, kind, not_here, elsewhere)))), tt)
  misfit-IsSo n name side partial m e f =
      let (_, _, verdict) = netgroup_side_fit-Verdicts n side in
      let (on_side, elsewhere) = verdict.0 f in
      let kind = (misfit_kind (netgroup_kind n) side).1 f in
      ((refl, (refl, (n, m, e, inr (refl, kind, on_side, elsewhere)))), tt)

  check_name-IsSo :
      (side : NetgroupSide) (name : JsString) (r : NetgroupResolution)
      → Claims (matches name) name r
      → All (λ p. (p.name ≡ name) × IsSo side p) (check_name side name r)
  unfolding check_name
  check_name-IsSo side name unknown c = tt
  check_name-IsSo side name absent c = ((refl, (refl, (refl, c))), tt)
  check_name-IsSo side name (found n) (m, e) =
      misfit-IsSo n name side (netgroup_side_fit (netgroup_kind n) side) m e refl

  check_names-IsSo :
      (names : List JsString) (side : NetgroupSide) (In : JsString → Type 0)
      (values : List JsString)
      → All In values
      → All (λ p. In p.name × IsSo side p) (check_names (resolve names answer) side values)
  unfolding check_names
  check_names-IsSo names side In [] h = tt
  check_names-IsSo names side In (v ∷ values) (h, hs) =
      All-append (λ p. In p.name × IsSo side p) _ _
        (All-weaken _ (λ p q. (subst In (sym q.0) h, q.1))
          (check_name-IsSo side v (resolve names answer v) (resolve-Right names v)))
        (check_names-IsSo names side In values hs)

  IsSo-IsRight :
      (side : NetgroupSide) (sudo_user sudo_host : List JsString) (p : Problem)
      → Memᴰ (b'+' ∷ p.name) (values_of side sudo_user sudo_host) × IsSo side p
      → IsRight matches sudo_user sudo_host p
  IsSo-IsRight side sudo_user sudo_host p (m, (e, so)) =
      subst (λ i. Memᴰ (b'+' ∷ p.name) (values_of i sudo_user sudo_host) × Says matches i p) (sym e)
        (m, so)

  -- Where each answer is drawn from the netgroups that match the search, every warning about a rule
  -- is on a name that the field of its side holds behind a plus sign, and either no netgroup has that
  -- name, or one has, and its triples have names on the other side: besides names on this one where
  -- the fit is partial, and none on this one where it is ignored.
  pub problems-IsRight :
      (sudo_user sudo_host : List JsString)
      → All (IsRight matches sudo_user sudo_host) (problems answer sudo_user sudo_host)
  unfolding problems
  problems-IsRight sudo_user sudo_host =
      let names = rule_names sudo_user sudo_host in
      All-append (IsRight matches sudo_user sudo_host) _ _ (side_right names NetgroupSide.users)
        (side_right names NetgroupSide.hosts)
    where
      side_right :
          (names : List JsString) (side : NetgroupSide)
          → All (IsRight matches sudo_user sudo_host) (
              check_names
                (resolve names answer)
                side
                (named_netgroups (values_of side sudo_user sudo_host)))
      side_right names side = All-weaken _ (IsSo-IsRight side sudo_user sudo_host) (
          check_names-IsSo names side _ (named_netgroups (values_of side sudo_user sudo_host))
            (named-Mem (values_of side sudo_user sudo_host)))

-- A slot matches a name if it is that name, or left open.
abbrev pub SlotMatches : JsString → JsString → Type 0
SlotMatches slot name = (slot ≡ []) ⊎ (slot ≡ name)

-- A triple that names a user on any host.
abbrev pub NamesUserOnly : NetgroupTriple → Type 0
NamesUserOnly t = (names_slot t.user ≡ true) × (t.host ≡ [])

empty_slot : names_slot [] ≡ false
unfolding names_slot
empty_slot = refl

scan_users :
    (triples : List NetgroupTriple)
    → All NamesUserOnly triples
    → scan true false triples ≡ (true, false)
unfolding scan
scan_users [] h = refl
scan_users (t ∷ ts) ((u, open_slot), h) = rw (u, open_slot, empty_slot) (scan_users ts h)

kind_users :
    (n : Netgroup) (t : NetgroupTriple) (rest : List NetgroupTriple)
    → n.triples ≡ t ∷ rest
    → All NamesUserOnly (t ∷ rest)
    → netgroup_kind n ≡ NetgroupKind.users
unfolding netgroup_kind kind_of scan
kind_users n t rest e ((u, open_slot), h) =
    let flags : scan false false (t ∷ rest) ≡ (true, false) =
      rw (scan, u, open_slot, empty_slot) (scan_users rest h) in
    rw (e, flags) refl

-- A netgroup whose triples each name a user and leave the host open is reported as ignored where a
-- rule names it among its hosts, as if it matched none, while every one of its triples matches
-- every host.
pub open_host_ignored :
    (n : Netgroup) (t : NetgroupTriple) (rest : List NetgroupTriple) (host : JsString)
    → n.triples ≡ t ∷ rest
    → All NamesUserOnly (t ∷ rest)
    → (check_name NetgroupSide.hosts n.cn (found n)
        ≡ record {
          name = n.cn;
          kind = some NetgroupKind.users;
          side = NetgroupSide.hosts;
          fit = ignored;
        }
          ∷ [])
      × All (λ triple. SlotMatches triple.host host) n.triples
unfolding check_name misfit netgroup_side_fit
open_host_ignored n t rest host e h =
    (rw (kind_users n t rest e h) refl, rw e (All-weaken (t ∷ rest) (λ triple q. inl q.1) h))

-- ===== src/NetgroupPage/Triples/Laws.antt =====
-- Lemmas on the triples editor, web/src/components/netgroup-triples.tsx.
use ldapwarden.Prelude.{
  Bool-cases, is_empty, any, All, All-append, remove_at, ℕ, zero, suc, ◌≡◌, inl, inr, false, ◌&&◌,
  List, [], ◌∷◌, ◌++◌, arith,
}
use ldapwarden.Netgroup.Types.{NetgroupTriple}
use ldapwarden.NetgroupPage.Triples.{
  Editor, next_triple, same_triple, add, remove, Action, adds, removes, types_user, types_host, act,
  act_all,
}

-- A slot of the triple is filled, so it does not match every user on every host.
abbrev pub IsClosed : NetgroupTriple → Type 0
IsClosed t = (is_empty t.user && is_empty t.host) ≡ false

-- No triple stands behind one that it equals.
abbrev pub AreDistinct : List NetgroupTriple → Type 0
AreDistinct [] = Unit {0}
AreDistinct (t ∷ ts) = All (λ u. same_triple t u ≡ false) ts × AreDistinct ts

abbrev pub IsSound : List NetgroupTriple → Type 0
IsSound ts = All IsClosed ts × AreDistinct ts

module _ (P : NetgroupTriple → Type 0) where
  All-remove_at : (i : ℕ) (ts : List NetgroupTriple) → All P ts → All P (remove_at i ts)
  All-remove_at i [] h = h
  All-remove_at zero (t ∷ ts) (p, h) = h
  All-remove_at (suc i) (t ∷ ts) (p, h) = (p, All-remove_at i ts h)

AreDistinct-remove_at :
    (i : ℕ) (ts : List NetgroupTriple) → AreDistinct ts → AreDistinct (remove_at i ts)
AreDistinct-remove_at i [] d = d
AreDistinct-remove_at zero (t ∷ ts) (a, d) = d
AreDistinct-remove_at (suc i) (t ∷ ts) (a, d) =
    (All-remove_at (λ u. same_triple t u ≡ false) i ts a, AreDistinct-remove_at i ts d)

AreDistinct-append :
    (next : NetgroupTriple) (ts : List NetgroupTriple)
    → AreDistinct ts
    → any (λ t. same_triple t next) ts ≡ false
    → AreDistinct (ts ++ next ∷ [])
AreDistinct-append next [] d h = (tt, tt)
AreDistinct-append next (t ∷ ts) (a, d) h =
    let here : same_triple t next ≡ false = ground arith in
    let later : any (λ u. same_triple u next) ts ≡ false = ground arith in
    (
      All-append (λ u. same_triple t u ≡ false) ts (next ∷ []) a (here, tt),
      AreDistinct-append next ts d later,
    )

add-IsSound : (s : Editor) → IsSound s.triples → IsSound (add s).triples
unfolding add next_triple
add-IsSound s (c, d) =
    let next = next_triple s in
    elim (Bool-cases (is_empty next.user && is_empty next.host)) [
      | inl e ↦ rw e (c, d)
      | inr e ↦ elim (Bool-cases (any (λ t. same_triple t next) s.triples)) [
        | inl f ↦ rw (e, f) (c, d)
        | inr f ↦
            rw (e, f)
              (
                All-append IsClosed s.triples (next ∷ []) c (e, tt),
                AreDistinct-append next s.triples d f,
              )
      ]
    ]

act-IsSound : (s : Editor) (a : Action) → IsSound s.triples → IsSound (act s a).triples
unfolding act remove
act-IsSound s adds h = add-IsSound s h
act-IsSound s (removes i) (c, d) =
    (All-remove_at IsClosed i s.triples c, AreDistinct-remove_at i s.triples d)
act-IsSound s (types_user v) h = h
act-IsSound s (types_host v) h = h

-- However triples are added and removed, no triple of the list leaves both of its slots open and no
-- two are the same, if that was so of the triples at the start.
pub act_all-IsSound :
    (s : Editor) (actions : List Action) → IsSound s.triples → IsSound (act_all s actions).triples
unfolding act_all
act_all-IsSound s [] h = h
act_all-IsSound s (a ∷ actions) h = act_all-IsSound (act s a) actions (act-IsSound s a h)

-- ===== src/Netgroup/KindLaws.antt =====
-- What the kind of a netgroup depends on, and what a fit means for the names that sudo reads.
use mathlib.Core.Bool.{false≢true}
use mathlib.Core.List.{Perm, Permᴰ}
use mathlib.Core.Logic.{∥∥₁_elim}
use ldapwarden.Prelude.{
  if◌then◌else◌, or-eq-true, JsString, text, ===_iff, any, any-append, ◌≡◌, refl, ap, ◌∙◌, ◌≢◌, ◌↔◌,
  inl, inr, Bool, true, false, ◌||◌, List, [], ◌∷◌, ◌++◌, arith,
}
use ldapwarden.Netgroup.Types.{NetgroupTriple, Netgroup}
use ldapwarden.Netgroup.Kind.{
  NetgroupKind, names_slot, scan, kind_of, netgroup_kind, NetgroupSide, NetgroupSideFit, ok,
  ignored, partial, netgroup_side_fit,
}

abbrev pub names_user : NetgroupTriple → Bool
names_user t = names_slot t.user

abbrev pub names_host : NetgroupTriple → Bool
names_host t = names_slot t.host

scan_lem :
    (us hs : Bool) (ts : List NetgroupTriple)
    → scan us hs ts ≡ (us || any names_user ts, hs || any names_host ts)
unfolding scan
scan_lem us hs [] = ground arith
scan_lem us hs (t ∷ ts) =
    scan_lem (if names_slot t.user then true else us) (if names_slot t.host then true else hs) ts
    ∙ ground arith

-- The kind from the two questions: is some user named, is some host named.
pub netgroup_kind_lem :
    (n : Netgroup) → netgroup_kind n ≡ kind_of (any names_user n.triples, any names_host n.triples)
unfolding netgroup_kind
netgroup_kind_lem n = ap kind_of (scan_lem false false n.triples)

-- What two sets of triples name together.
abbrev pub join : NetgroupKind → NetgroupKind → NetgroupKind
join NetgroupKind.empty k = k
join NetgroupKind.users NetgroupKind.empty = NetgroupKind.users
join NetgroupKind.users NetgroupKind.users = NetgroupKind.users
join NetgroupKind.hosts NetgroupKind.empty = NetgroupKind.hosts
join NetgroupKind.hosts NetgroupKind.hosts = NetgroupKind.hosts
join _ _ = NetgroupKind.mixed

kind_of-or : (a b c d : Bool) → kind_of (a || c, b || d) ≡ join (kind_of (a, b)) (kind_of (c, d))
unfolding kind_of
kind_of-or a b c d = ground arith

abbrev with_triples : Netgroup → List NetgroupTriple → Netgroup
with_triples n ts = record n { triples = ts }

-- The kind of a netgroup whose triples are put together from two lists is the join of the two
-- kinds: neither list's names are lost.
pub netgroup_kind-append :
    (n : Netgroup) (ts us : List NetgroupTriple)
    → netgroup_kind (with_triples n (ts ++ us))
      ≡ join (netgroup_kind (with_triples n ts)) (netgroup_kind (with_triples n us))
netgroup_kind-append n ts us =
    rw
      (
        netgroup_kind_lem (with_triples n (ts ++ us)),
        netgroup_kind_lem (with_triples n ts),
        netgroup_kind_lem (with_triples n us),
        any-append names_user ts us,
        any-append names_host ts us,
      )
      (kind_of-or (any names_user ts) (any names_host ts) (any names_user us) (any names_host us))

-- What the sudo field of a side reads of a triple.
abbrev pub slot : NetgroupSide → NetgroupTriple → JsString
slot NetgroupSide.users t = t.user
slot NetgroupSide.hosts t = t.host

abbrev pub other : NetgroupSide → NetgroupSide
other NetgroupSide.users = NetgroupSide.hosts
other NetgroupSide.hosts = NetgroupSide.users

-- Some triple names something in the slot of the side: neither everything nor nothing.
pub data Names (side : NetgroupSide) : List NetgroupTriple → Type 0 where
  here :
      {t : NetgroupTriple} {ts : List NetgroupTriple}
      → slot side t ≢ text ""
      → slot side t ≢ text "-"
      → Names side (t ∷ ts)
  there : {t : NetgroupTriple} {ts : List NetgroupTriple} → Names side ts → Names side (t ∷ ts)

abbrev named : NetgroupSide → NetgroupTriple → Bool
named side t = names_slot (slot side t)

names_slot_iff : (v : JsString) → (names_slot v ≡ true) ↔ ((v ≢ text "") × (v ≢ text "-"))
unfolding names_slot
names_slot_iff [] = (λ h. cc, λ h. absurd (h.0 refl))
names_slot_iff (c ∷ v) = (
  λ h. (λ e. cc, λ e. ground (arith, ===_iff (c ∷ v) (text "-"))),
  λ h. ground (arith, ===_iff (c ∷ v) (text "-")),
)

Names-iff :
    (side : NetgroupSide) (ts : List NetgroupTriple) → (any (named side) ts ≡ true) ↔ Names side ts
Names-iff side ts = (to ts, from)
  where
    to : (ts : List NetgroupTriple) → any (named side) ts ≡ true → Names side ts
    to [] h = cc
    to (t ∷ ts) h = elim (or-eq-true h) [
      | inl e ↦ let (p, q) = (names_slot_iff (slot side t)).0 e in here p q
      | inr e ↦ there (to ts e)
    ]

    from : {ts : List NetgroupTriple} → Names side ts → any (named side) ts ≡ true
    from (here {t} p q) = rw ((names_slot_iff (slot side t)).1 (p, q))
    from (there {t} h) = ground (arith, from h)

fit_for : Bool → Bool → NetgroupSideFit
fit_for true true = partial
fit_for false true = ignored
fit_for _ false = ok

side_fit-kind_of :
    (us hs : Bool)
    → (netgroup_side_fit (kind_of (us, hs)) NetgroupSide.users ≡ fit_for us hs)
      × (netgroup_side_fit (kind_of (us, hs)) NetgroupSide.hosts ≡ fit_for hs us)
unfolding netgroup_side_fit kind_of fit_for
side_fit-kind_of us hs = ground arith

side_fit-fit_for :
    (n : Netgroup) (side : NetgroupSide)
    → netgroup_side_fit (netgroup_kind n) side
      ≡ fit_for (any (named side) n.triples) (any (named (other side)) n.triples)
side_fit-fit_for n NetgroupSide.users = rw (netgroup_kind_lem n) (side_fit-kind_of _ _).0
side_fit-fit_for n NetgroupSide.hosts = rw (netgroup_kind_lem n) (side_fit-kind_of _ _).1

-- The three verdicts, for what is named on the side and what is named on the other one.
abbrev pub Verdicts : NetgroupSideFit → Type 0 → Type 0 → Type 0
Verdicts fit A B =
    ((fit ≡ ok) ↔ (¬ B)) × ((fit ≡ ignored) ↔ ((¬ A) × B)) × ((fit ≡ partial) ↔ (A × B))

fit_for-Verdicts :
    (a b : Bool) {A B : Type 0} → (a ≡ true) ↔ A → (b ≡ true) ↔ B → Verdicts (fit_for a b) A B
unfolding fit_for
fit_for-Verdicts true true p q = (
  (λ e. cc, λ n. absurd (n (q.0 refl))),
  (λ e. cc, λ m. absurd (m.0 (p.0 refl))),
  (λ e. (p.0 refl, q.0 refl), λ m. refl),
)
fit_for-Verdicts true false p q = (
  (λ e y. false≢true (q.1 y), λ n. refl),
  (λ e. cc, λ m. absurd (false≢true (q.1 m.1))),
  (λ e. cc, λ m. absurd (false≢true (q.1 m.1))),
)
fit_for-Verdicts false true p q = (
  (λ e. cc, λ n. absurd (n (q.0 refl))),
  (λ e. (λ x. false≢true (p.1 x), q.0 refl), λ m. refl),
  (λ e. cc, λ m. absurd (false≢true (p.1 m.0))),
)
fit_for-Verdicts false false p q = (
  (λ e y. false≢true (q.1 y), λ n. refl),
  (λ e. cc, λ m. absurd (false≢true (q.1 m.1))),
  (λ e. cc, λ m. absurd (false≢true (p.1 m.0))),
)

-- The verdict on a netgroup used on a side, in terms of the slots that sudo reads there: it is
-- "ok" exactly when no triple names anything on the other side, "ignored" exactly when the names
-- are all on the other side, and "partial" exactly when both sides have names.
pub netgroup_side_fit-Verdicts :
    (n : Netgroup) (side : NetgroupSide)
    → Verdicts
        (netgroup_side_fit (netgroup_kind n) side)
        (Names side n.triples)
        (Names (other side) n.triples)
netgroup_side_fit-Verdicts n side =
    rw (side_fit-fit_for n side)
      (fit_for-Verdicts _ _ (Names-iff side n.triples) (Names-iff (other side) n.triples))

any-permᴰ : {A : Type 0} (p : A → Bool) {xs ys : List A} → Permᴰ xs ys → any p xs ≡ any p ys
any-permᴰ p Permᴰ.nil = refl
any-permᴰ p (Permᴰ.cons e h) = rw (e, any-permᴰ p h)
any-permᴰ p (Permᴰ.swap e f) = rw (e, f) (ground arith)
any-permᴰ p (Permᴰ.trans h k) = any-permᴰ p h ∙ any-permᴰ p k

NetgroupKind-set : IsSet NetgroupKind
NetgroupKind-set = hlevel

-- The kind does not depend on the order in which the directory returns the triples.
pub netgroup_kind-perm :
    (n : Netgroup) (ts us : List NetgroupTriple)
    → Perm ts us
    → netgroup_kind (with_triples n ts) ≡ netgroup_kind (with_triples n us)
netgroup_kind-perm n ts us h = ∥∥₁_elim h (NetgroupKind-set _ _) λ d. rw (
  netgroup_kind_lem (with_triples n ts),
  netgroup_kind_lem (with_triples n us),
  any-permᴰ names_user d,
  any-permᴰ names_host d,
)

-- ===== src/Ui/Tabs/Laws.antt =====
-- Where the arrow keys of web/src/components/ui/tabs.tsx lead.
use mathlib.Core.Option
use native.Mathlib.Nat.{add-mod_right, mod-eq_of_lt}
use native.Mathlib.Decide.{dec_lt}
use ldapwarden.Prelude.{
  Bool-cases, JsString, ◌===◌, ===_refl, ===_eq, length, get_elem?, All, get_elem?_below, ℕ, zero,
  suc, ◌+◌, ◌-◌, ◌<◌, ◌≡◌, refl, ◌∙◌, inl, inr, false, Option, none, some, List, [], ◌∷◌, arith,
}
use ldapwarden.Ui.Tabs.{
  Key, arrow_right, arrow_down, arrow_left, arrow_up, home_key, end_key, other_key, index_of, after,
  before, target, press,
}

-- A key leads from a tab to a tab of the list, if it is one of the keys: the next, the one before,
-- the first or the last, going round at the ends.
pub target_bounds :
    (key : Key) (index count : ℕ) {place : ℕ}
    → index < count
    → target key index count ≡ some place
    → place < count
unfolding target after before
target_bounds arrow_right index count h e = grind arith
target_bounds arrow_down index count h e = grind arith
target_bounds arrow_left index count h e = grind arith
target_bounds arrow_up index count h e = grind arith
target_bounds home_key index count h e = ground arith
target_bounds end_key index count h e = ground arith
target_bounds other_key index count h e = cc

-- The two cases of each move: within the list, and round its end.
after_inner : (index count : ℕ) → index + 1 < count → after index count ≡ index + 1
unfolding after
after_inner index count h = grind arith

after_last : (index count : ℕ) → index + 1 ≡ count → after index count ≡ 0
unfolding after
after_last index count h = grind arith

before_inner : (index count : ℕ) → suc index < count → before (suc index) count ≡ index
unfolding before
before_inner index count h =
    let e : suc index + count - 1 ≡ index + count = omega arith in
    rw e (add-mod_right index count ∙ mod-eq_of_lt (omega arith))

before_first : (count : ℕ) → before 0 (suc count) ≡ count
unfolding before
before_first count =
    let e : 0 + suc count - 1 ≡ count = omega arith in rw e (mod-eq_of_lt (omega arith))

pub before-after : (index count : ℕ) → index < count → before (after index count) count ≡ index
before-after index count h = elim (dec_lt (index + 1) count) [
  | yes p ↦
      let e : after index count ≡ suc index = omega (arith, after_inner index count p) in
      rw e (before_inner index count (omega arith))
  | no p ↦
      let e : count ≡ suc index = omega arith in
      rw (after_last index count (omega arith), e) (before_first index)
]

pub after-before : (index count : ℕ) → index < count → after (before index count) count ≡ index
after-before zero count h =
    let e : count ≡ suc (count - 1) = omega arith in
    rw e (rw (before_first (count - 1)) (after_last (count - 1) (suc (count - 1)) (omega arith)))
after-before (suc index) count h =
    rw (before_inner index count h) (after_inner index count (omega arith) ∙ omega arith)

-- No tab stands twice in the list.
abbrev pub AreDistinct : List JsString → Type 0
AreDistinct [] = Unit {0}
AreDistinct (t ∷ tabs) = All (λ u. (t === u) ≡ false) tabs × AreDistinct tabs

differs_at :
    (t u : JsString) (tabs : List JsString) (i : ℕ)
    → All (λ v. (t === v) ≡ false) tabs
    → get_elem? tabs i ≡ some u
    → (t === u) ≡ false
differs_at t u [] i h e = cc
differs_at t u (v ∷ tabs) zero (h, _) e = let same : v ≡ u = cc in rw (← same) h
differs_at t u (v ∷ tabs) (suc i) (_, h) e = differs_at t u tabs i h e

index_of_place :
    (t : JsString) (tabs : List JsString) (i : ℕ)
    → AreDistinct tabs
    → get_elem? tabs i ≡ some t
    → index_of t tabs ≡ some i
unfolding index_of
index_of_place t [] i d e = cc
index_of_place t (u ∷ tabs) zero d e = let same : u ≡ t = cc in rw (same, ===_refl t) refl
index_of_place t (u ∷ tabs) (suc i) (d, ds) e =
    rw (differs_at u t tabs i d e, index_of_place t tabs i ds e) refl

found_at :
    (t u : JsString) (tabs : List JsString) (o : Option ℕ)
    → index_of t tabs ≡ o
    → ((j : ℕ) → o ≡ some j → get_elem? tabs j ≡ some t)
    → (i : ℕ) → index_of t (u ∷ tabs) ≡ some i
    → get_elem? (u ∷ tabs) i ≡ some t
unfolding index_of
found_at t u tabs o f ih i e = elim (Bool-cases (u === t)) [
  | inl h ↦ let first : 0 ≡ i = unsome (rw h at e) in rw (← first, ===_eq u t h) refl
  | inr h ↦ later o f ih (rw h at e)
]
  where
    unsome : {a b : ℕ} → Option.some a ≡ some b → a ≡ b
    unsome q = ground arith

    later :
        (o : Option ℕ)
        → index_of t tabs ≡ o
        → ((j : ℕ) → o ≡ some j → get_elem? tabs j ≡ some t)
        → Option.map suc (index_of t tabs) ≡ some i
        → get_elem? (u ∷ tabs) i ≡ some t
    later none f ih e = let q : Option.map suc none ≡ some i = rw f at e in cc
    later (some j) f ih e =
        let q : Option.map suc (some j) ≡ some i = rw f at e in rw (← unsome q) (ih j refl)

place_of_index :
    (t : JsString) (tabs : List JsString) (i : ℕ)
    → index_of t tabs ≡ some i
    → get_elem? tabs i ≡ some t
unfolding index_of
place_of_index t [] i e = cc
place_of_index t (u ∷ tabs) i e =
    found_at t u tabs (index_of t tabs) refl (place_of_index t tabs) i e

elem_below :
    (tabs : List JsString) (i : ℕ) → i < length tabs → (t : JsString) × (get_elem? tabs i ≡ some t)
elem_below [] i h = absurd (omega arith)
elem_below (t ∷ tabs) zero h = (t, refl)
elem_below (t ∷ tabs) (suc i) h = elem_below tabs i (omega arith)

-- What a key does where its place is known.
press_at :
    (key : Key) (tabs : List JsString) (current : JsString) (i j : ℕ)
    → index_of current tabs ≡ some i
    → target key i (length tabs) ≡ some j
    → press key tabs current ≡ get_elem? tabs j
unfolding press
press_at key tabs current i j e f = rw (e, f) refl

-- From a tab of a list without repetition, the right arrow leads to a tab of the list, from which
-- the left arrow leads back, and the left arrow to one from which the right arrow leads back.
pub press_returns :
    (tabs : List JsString) (current : JsString) (index : ℕ)
    → AreDistinct tabs
    → index_of current tabs ≡ some index
    → ((next : JsString) × (press arrow_right tabs current ≡ some next)
        × (press arrow_left tabs next ≡ some current))
      × ((previous : JsString) × (press arrow_left tabs current ≡ some previous)
          × (press arrow_right tabs previous ≡ some current))
unfolding target
press_returns tabs current index d e =
    let n = length tabs in
    let here = place_of_index current tabs index e in
    let h : index < n = get_elem?_below index tabs current here in
    let (next, p) = elem_below tabs (after index n) (target_bounds arrow_right index n h refl) in
    let (previous, q) =
      elem_below tabs (before index n) (target_bounds arrow_left index n h refl) in
    (
      (
        next,
        press_at arrow_right tabs current index (after index n) e refl ∙ p,
        press_at arrow_left tabs next (after index n) (before (after index n) n)
              (index_of_place next tabs (after index n) d p) refl
            ∙ rw (before-after index n h) here,
      ),
      (
        previous,
        press_at arrow_left tabs current index (before index n) e refl ∙ q,
        press_at arrow_right tabs previous (before index n) (after (before index n) n)
              (index_of_place previous tabs (before index n) d q) refl
            ∙ rw (after-before index n h) here,
      ),
    )

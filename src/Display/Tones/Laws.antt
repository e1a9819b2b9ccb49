-- ===== src/Display/Tones/Laws.antt =====
-- Lemmas on assignTones (web/src/lib/tones.ts): the order of texts, sorting, and values without
-- repetition.
use mathlib.Core.Bool.{false≢true}
use ldapwarden.Prelude.{
  ltb, Bool-cases, JsString, ◌===◌, ===_refl, ===_eq, includes, unique_from, All, All-weaken, ◌≡◌,
  refl, sym, ap, ap₂, ◌∙◌, ◌⊎◌, inl, inr, Bool, true, false, ◌||◌, List, [], ◌∷◌, arith,
}
use ldapwarden.Prelude.Unlike.{includes-unique_from}
use ldapwarden.Display.Tones.{is_before, insert_text, sort_texts, tones_from, assign_tones}

is_before_irrefl : (s : JsString) → is_before s s ≡ false
unfolding is_before
is_before_irrefl [] = refl
is_before_irrefl (c ∷ s) = ground (arith, is_before_irrefl s)

is_before_trans :
    (r s t : JsString) → is_before r s ≡ true → is_before s t ≡ true → is_before r t ≡ true
unfolding is_before
is_before_trans [] [] t h k = cc
is_before_trans [] (d ∷ s) [] h k = k
is_before_trans [] (d ∷ s) (e ∷ t) h k = refl
is_before_trans (c ∷ r) [] t h k = cc
is_before_trans (c ∷ r) (d ∷ s) [] h k = cc
is_before_trans (c ∷ r) (d ∷ s) (e ∷ t) h k = ground (arith, is_before_trans r s t)

-- Of two different texts one is before the other.
is_before_total : (s t : JsString) → is_before s t ≡ false → (t ≡ s) ⊎ (is_before t s ≡ true)
unfolding is_before
is_before_total [] [] h = inl refl
is_before_total [] (d ∷ t) h = cc
is_before_total (c ∷ s) [] h = inr refl
is_before_total (c ∷ s) (d ∷ t) h = elim (Bool-cases (ltb d c)) [
  | inl e ↦ inr (rw e refl)
  | inr e ↦
      let same : d ≡ c = ground arith in
      let later : is_before s t ≡ false = ground arith in
      elim (is_before_total s t later) [ inl f ↦ inl (ap₂ ◌∷◌ same f) | inr f ↦ inr (ground arith) ]
]

abbrev IsSorted : List JsString → Type 0
IsSorted [] = Unit
IsSorted (x ∷ xs) = All (λ y. is_before x y ≡ true) xs × IsSorted xs

includes-insert_text :
    (s x : JsString) (xs : List JsString)
    → includes s (insert_text x xs) ≡ (x === s || includes s xs)
unfolding insert_text
includes-insert_text s x [] = refl
includes-insert_text s x (y ∷ ys) = elim (Bool-cases (is_before y x)) [
  | inl e ↦
      let more = includes-insert_text s x ys in
      rw (e, more) (swap (y === s) (x === s) (includes s ys))
  | inr e ↦ rw e refl
]
  where
    swap : (a b c : Bool) → (a || (b || c)) ≡ (b || (a || c))
    swap a b c = ground arith

All-insert_text :
    (P : JsString → Type 0) (x : JsString) (xs : List JsString)
    → P x
    → All P xs
    → All P (insert_text x xs)
unfolding insert_text
All-insert_text P x [] p h = (p, tt)
All-insert_text P x (y ∷ ys) p (q, h) = elim (Bool-cases (is_before y x)) [
  | inl e ↦ rw e (q, All-insert_text P x ys p h)
  | inr e ↦ rw e (p, (q, h))
]

insert_text-IsSorted :
    (x : JsString) (xs : List JsString)
    → includes x xs ≡ false
    → IsSorted xs
    → IsSorted (insert_text x xs)
unfolding insert_text
insert_text-IsSorted x [] n s = (tt, tt)
insert_text-IsSorted x (y ∷ ys) n (low, s) = elim (Bool-cases (is_before y x)) [
  | inl e ↦ rw e (
    All-insert_text (λ z. is_before y z ≡ true) x ys e low,
    insert_text-IsSorted x ys (ground arith) s,
  )
  | inr e ↦ elim (is_before_total y x e) [
    | inl same ↦ absurd (false≢true (sym n ∙ rw (same, ===_refl y) refl))
    | inr before ↦
        rw e ((before, All-weaken ys (λ z q. is_before_trans x y z before q) low), (low, s))
  ]
]

includes-sort_texts :
    (s : JsString) (xs : List JsString) → includes s (sort_texts xs) ≡ includes s xs
unfolding sort_texts
includes-sort_texts s [] = refl
includes-sort_texts s (x ∷ xs) =
    includes-insert_text s x (sort_texts xs) ∙ ap (λ b. x === s || b) (includes-sort_texts s xs)

abbrev AreApart : List JsString → Type 0
AreApart [] = Unit
AreApart (x ∷ xs) = (includes x xs ≡ false) × AreApart xs

sort_texts-IsSorted : (xs : List JsString) → AreApart xs → IsSorted (sort_texts xs)
unfolding sort_texts
sort_texts-IsSorted [] a = tt
sort_texts-IsSorted (x ∷ xs) (n, a) =
    insert_text-IsSorted x (sort_texts xs) (includes-sort_texts x xs ∙ n) (sort_texts-IsSorted xs a)

unique_from-AreApart : (seen xs : List JsString) → AreApart (unique_from seen xs)
unfolding unique_from
unique_from-AreApart seen [] = tt
unique_from-AreApart seen (x ∷ xs) = elim (Bool-cases (includes x seen)) [
  | inl e ↦ rw e (unique_from-AreApart seen xs)
  | inr e ↦ rw e (
    includes-unique_from x (x ∷ seen) xs ∙ rw (===_refl x) refl,
    unique_from-AreApart (x ∷ seen) xs,
  )
]

above :
    (x z : JsString) (xs : List JsString)
    → All (λ y. is_before x y ≡ true) xs
    → includes z xs ≡ true
    → is_before x z ≡ true
above x z [] h m = cc
above x z (y ∷ ys) (b, h) m = elim (Bool-cases (y === z)) [
  | inl e ↦ rw (← ===_eq y z e) b
  | inr e ↦ above x z ys h (ground arith)
]

not_above :
    (x : JsString) (xs : List JsString) → All (λ y. is_before x y ≡ true) xs → includes x xs ≡ false
not_above x xs h = elim (Bool-cases (includes x xs)) [
  | inl e ↦ absurd (false≢true (sym (is_before_irrefl x) ∙ above x x xs h e))
  | inr e ↦ e
]

-- The first of a sorted list is not after a value of it.
first_low :
    (x y : JsString) (xs : List JsString)
    → All (λ z. is_before x z ≡ true) xs
    → includes y (x ∷ xs) ≡ true
    → (x ≡ y) ⊎ (is_before x y ≡ true)
first_low x y xs h m = elim (Bool-cases (x === y)) [
  | inl e ↦ inl (===_eq x y e)
  | inr e ↦ inr (above x y xs h (ground arith))
]

sorted_eq :
    (xs ys : List JsString)
    → IsSorted xs
    → IsSorted ys
    → ((s : JsString) → includes s xs ≡ includes s ys)
    → xs ≡ ys
sorted_eq [] [] p q h = refl
sorted_eq [] (y ∷ ys) p q h = absurd (false≢true (h y ∙ rw (===_refl y) refl))
sorted_eq (x ∷ xs) [] p q h = absurd (false≢true (sym (h x) ∙ rw (===_refl x) refl))
sorted_eq (x ∷ xs) (y ∷ ys) (low, p) (low', q) h =
    let m : includes y (x ∷ xs) ≡ true = h y ∙ rw (===_refl y) refl in
    let n : includes x (y ∷ ys) ≡ true = sym (h x) ∙ rw (===_refl x) refl in
    let same = first_same (first_low x y xs low m) (first_low y x ys low' n) in
    ap₂ ◌∷◌ same (sorted_eq xs ys p q (tails same))
  where
    first_same : ((x ≡ y) ⊎ (is_before x y ≡ true)) → ((y ≡ x) ⊎ (is_before y x ≡ true)) → x ≡ y
    first_same (inl e) b = e
    first_same (inr e) (inl f) = sym f
    first_same (inr e) (inr f) =
        absurd (false≢true (sym (is_before_irrefl x) ∙ is_before_trans x y x e f))

    tails : x ≡ y → (s : JsString) → includes s xs ≡ includes s ys
    tails same s = elim (Bool-cases (x === s)) [
      | inl e ↦
          let here : x ≡ s = ===_eq x s e in
          rw (← here) (not_above x xs low ∙ sym (rw same (not_above y ys low')))
      | inr e ↦
          let other : (y === s) ≡ false = rw (← same) e in
          let both : (x === s || includes s xs) ≡ (y === s || includes s ys) = h s in ground arith
    ]

-- Two lists with the same values, in whatever order and however often each comes, get the same
-- colours.
pub assign_tones_same :
    (xs ys : List JsString)
    → ((s : JsString) → includes s xs ≡ includes s ys)
    → assign_tones xs ≡ assign_tones ys
unfolding assign_tones
assign_tones_same xs ys h = ap (tones_from 0) (
    sorted_eq (sort_texts (unique_from [] xs)) (sort_texts (unique_from [] ys))
      (sort_texts-IsSorted (unique_from [] xs) (unique_from-AreApart [] xs))
      (sort_texts-IsSorted (unique_from [] ys) (unique_from-AreApart [] ys))
      (λ s.
        includes-sort_texts s (unique_from [] xs)
        ∙ includes-unique_from s [] xs
        ∙ h s
        ∙ sym (includes-unique_from s [] ys)
        ∙ sym (includes-sort_texts s (unique_from [] ys))))

-- ===== src/Prelude/Lists.antt =====
-- Lists measured and indexed by native numbers, searched by Boolean tests.
use Prim.Native.Nat.{ℕ, zero, suc, ◌+◌, ◌≤◌, ◌<◌}
use mathlib.Core.List.Perm
use mathlib.Core.Path.{◌≡◌, refl, ap, subst, sym}
use mathlib.Core.Bool.{Bool, true, false, ◌&&◌, ◌||◌}
use mathlib.Core.List.{List, [], ◌∷◌, ◌++◌, map, Memᴰ, Perm}
use mathlib.Core.Option.{Option, none, some}
use native.Mathlib.Omega.{arith}
use ldapwarden.Prelude.Tests.{if◌then◌else◌}

module _ {ℓ} {A : Type ℓ} where
  abbrev pub length : List A → ℕ
  length [] = 0
  length (x ∷ xs) = suc (length xs)

  abbrev pub get_elem? : List A → ℕ → Option A
  get_elem? [] i = none
  get_elem? (x ∷ xs) zero = some x
  get_elem? (x ∷ xs) (suc i) = get_elem? xs i

  abbrev pub get_or : List A → ℕ → A → A
  get_or [] i d = d
  get_or (x ∷ xs) zero d = x
  get_or (x ∷ xs) (suc i) d = get_or xs i d

  abbrev pub take : ℕ → List A → List A
  take zero xs = []
  take (suc n) [] = []
  take (suc n) (x ∷ xs) = x ∷ take n xs

  abbrev pub drop : ℕ → List A → List A
  drop zero xs = xs
  drop (suc n) [] = []
  drop (suc n) (x ∷ xs) = drop n xs

  -- `Array.filter`, `some`, `every` and `find`, over a Boolean test.
  abbrev pub filter : (A → Bool) → List A → List A
  filter p [] = []
  filter p (x ∷ xs) = if p x then x ∷ filter p xs else filter p xs

  abbrev pub any : (A → Bool) → List A → Bool
  any p [] = false
  any p (x ∷ xs) = p x || any p xs

  abbrev pub all : (A → Bool) → List A → Bool
  all p [] = true
  all p (x ∷ xs) = p x && all p xs

  abbrev pub find : (A → Bool) → List A → Option A
  find p [] = none
  find p (x ∷ xs) = if p x then some x else find p xs

  pub length-append : (xs ys : List A) → length (xs ++ ys) ≡ length xs + length ys
  length-append [] ys = omega arith
  length-append (x ∷ xs) ys = omega (arith, length-append xs ys)

  pub length-filter-le : (p : A → Bool) (xs : List A) → length (filter p xs) ≤ length xs
  length-filter-le p [] = omega arith
  length-filter-le p (x ∷ xs) = ground (arith, length-filter-le p xs)

  pub any-append : (p : A → Bool) (xs ys : List A) → any p (xs ++ ys) ≡ (any p xs || any p ys)
  any-append p [] ys = refl
  any-append p (x ∷ xs) ys = ground (arith, any-append p xs ys)

pub length-map {ℓ κ} :
    {A : Type ℓ} {B : Type κ} (f : A → B) (xs : List A) → length (map f xs) ≡ length xs
length-map f [] = refl
length-map f (x ∷ xs) = ap suc (length-map f xs)

module _ {ℓ κ} {A : Type ℓ} (P : A → Type κ) where
  abbrev pub All : List A → Type κ
  All [] = Unit
  All (x ∷ xs) = P x × All xs

  pub All-append : (xs ys : List A) → All xs → All ys → All (xs ++ ys)
  All-append [] ys h k = k
  All-append (x ∷ xs) ys (p, h) k = (p, All-append xs ys h k)

  pub All-Mem : {x : A} {xs : List A} → All xs → Memᴰ x xs → P x
  All-Mem {xs = []} h m = elim m [ ]
  All-Mem {xs = y ∷ xs} (p, h) (Memᴰ.head e) = subst P (sym e) p
  All-Mem {xs = y ∷ xs} (p, h) (Memᴰ.tail m) = All-Mem h m

module _ {ℓ} {A : Type ℓ} where
  -- `splice(i, 1)`.
  abbrev pub remove_at : ℕ → List A → List A
  remove_at i [] = []
  remove_at zero (x ∷ xs) = xs
  remove_at (suc i) (x ∷ xs) = x ∷ remove_at i xs

  pub length-remove_at :
      (i : ℕ) (xs : List A) (x : A)
      → get_elem? xs i ≡ some x
      → length xs ≡ suc (length (remove_at i xs))
  length-remove_at i [] x e = ground arith
  length-remove_at zero (y ∷ xs) x e = refl
  length-remove_at (suc i) (y ∷ xs) x e = ap suc (length-remove_at i xs x e)

  pub remove_at-perm :
      (i : ℕ) (xs : List A) (x : A) → get_elem? xs i ≡ some x → Perm xs (x ∷ remove_at i xs)
  remove_at-perm i [] x e = ground arith
  remove_at-perm zero (y ∷ xs) x e = Perm.cons' (ground arith) Perm.rfl
  remove_at-perm (suc i) (y ∷ xs) x e =
      Perm.trans (Perm.cons y (remove_at-perm i xs x e)) (Perm.swap x y (remove_at i xs))

  pub take_next :
      (i : ℕ) (xs : List A) (x : A)
      → get_elem? xs i ≡ some x
      → take (suc i) xs ≡ take i xs ++ x ∷ []
  take_next i [] x e = ground arith
  take_next zero (y ∷ xs) x e = ground arith
  take_next (suc i) (y ∷ xs) x e = ap (◌∷◌ y) (take_next i xs x e)

  pub take_all : (i : ℕ) (xs : List A) → length xs ≤ i → take i xs ≡ xs
  take_all zero [] h = refl
  take_all (suc i) [] h = refl
  take_all zero (x ∷ xs) h = absurd (omega arith)
  take_all (suc i) (x ∷ xs) h = ap (◌∷◌ x) (take_all i xs (omega arith))

  pub get_elem?_below : (i : ℕ) (xs : List A) (x : A) → get_elem? xs i ≡ some x → i < length xs
  get_elem?_below i [] x e = ground arith
  get_elem?_below zero (y ∷ xs) x e = omega arith
  get_elem?_below (suc i) (y ∷ xs) x e = omega (arith, get_elem?_below i xs x e)

  pub get_elem?_above : (i : ℕ) (xs : List A) → get_elem? xs i ≡ none → length xs ≤ i
  get_elem?_above i [] e = omega arith
  get_elem?_above zero (y ∷ xs) e = cc
  get_elem?_above (suc i) (y ∷ xs) e = omega (arith, get_elem?_above i xs e)

  pub take_end : (i : ℕ) (xs : List A) → get_elem? xs i ≡ none → take (suc i) xs ≡ take i xs
  take_end zero [] e = refl
  take_end (suc i) [] e = refl
  take_end zero (y ∷ xs) e = cc
  take_end (suc i) (y ∷ xs) e = ap (◌∷◌ y) (take_end i xs e)

  pub length-take-le : (i : ℕ) (xs : List A) → length (take i xs) ≤ length xs
  length-take-le zero xs = omega arith
  length-take-le (suc i) [] = omega arith
  length-take-le (suc i) (x ∷ xs) = omega (arith, length-take-le i xs)

  pub eq-nil_of_length : (xs : List A) → length xs ≡ 0 → xs ≡ []
  eq-nil_of_length [] e = refl
  eq-nil_of_length (x ∷ xs) e = absurd (omega arith)

pub All-weaken {ℓ ℓP ℓQ} :
    {A : Type ℓ} {P : A → Type ℓP} {Q : A → Type ℓQ} (xs : List A)
    → ((a : A) → P a → Q a)
    → All P xs
    → All Q xs
All-weaken [] f h = tt
All-weaken (x ∷ xs) f (p, h) = (f x p, All-weaken xs f h)

-- ===== src/Prelude/Split.antt =====
-- Taking JavaScript strings apart: `split` and `trim`.
use Prim.Native.Nat.{ℕ}
use mathlib.Core.Path.{◌≡◌, refl}
use mathlib.Core.Logic.{◌≢◌, inl, inr}
use mathlib.Core.Bool.{Bool, true, false, ◌&&◌, ◌||◌}
use mathlib.Core.List.{List, [], ◌∷◌, ◌++◌}
use native.Mathlib.Omega.{arith}
use ldapwarden.Prelude.Tests.{◌==◌, leb, if◌then◌else◌, Bool-cases}
use ldapwarden.Prelude.Lists.{any, All}
use ldapwarden.Prelude.Text.{JsString, is_empty}

-- `s.split(c)` for a single character.
unfoldable pub split_on : ℕ → JsString → List JsString
split_on c [] = [] ∷ []
split_on c (d ∷ s) = elim (split_on c s) [
  | [] ↦ (d ∷ []) ∷ []
  | part ∷ parts ↦ if d == c then [] ∷ part ∷ parts else (d ∷ part) ∷ parts
]

pub split_on-cons :
    (c : ℕ) (s : JsString) → (p : JsString) × (ps : List JsString) × (split_on c s ≡ p ∷ ps)
unfolding split_on
split_on-cons c [] = ([], [], refl)
split_on-cons c (d ∷ s) =
    let (p, ps, e) = split_on-cons c s in
    elim (Bool-cases (d == c)) [
      | inl h ↦ ([], p ∷ ps, rw (e, split_on, h) refl)
      | inr h ↦ (d ∷ p, ps, rw (e, split_on, h) refl)
    ]

pub split_on-none : (c : ℕ) (s : JsString) → All (λ d. d ≢ c) s → split_on c s ≡ s ∷ []
unfolding split_on
split_on-none c [] h = refl
split_on-none c (d ∷ s) (k, h) =
    let e : (d == c) ≡ false = ground arith in rw (split_on-none c s h, e) refl

pub split_on-append :
    (c : ℕ) (s t : JsString) → All (λ d. d ≢ c) s → split_on c (s ++ (c ∷ t)) ≡ s ∷ split_on c t
unfolding split_on
split_on-append c [] t h =
    let (p, ps, e) = split_on-cons c t in
    let same : (c == c) ≡ true = ground arith in rw (e, same) refl
split_on-append c (d ∷ s) t (k, h) =
    let e : (d == c) ≡ false = ground arith in rw (split_on-append c s t h, e) refl

-- A text up to the first place of a character, and what follows it.
unfoldable pub cut_at : ℕ → JsString → JsString × JsString
cut_at c [] = ([], [])
cut_at c (d ∷ s) = let rest = cut_at c s in if d == c then ([], s) else (d ∷ rest.0, rest.1)

pub cut_at-append : (c : ℕ) (s t : JsString) → All (λ d. d ≢ c) s → cut_at c (s ++ (c ∷ t)) ≡ (s, t)
unfolding cut_at
cut_at-append c [] t h = let same : (c == c) ≡ true = ground arith in rw same refl
cut_at-append c (d ∷ s) t (k, h) =
    let e : (d == c) ≡ false = ground arith in rw (cut_at-append c s t h, e) refl

-- `trim()`: what ECMAScript counts as white space or as the end of a line.
abbrev pub is_white : ℕ → Bool
is_white c =
    (leb 9 c && leb c 13)
    || (leb 8192 c && leb c 8202)
    || any (λ k. k == c) (32 ∷ 160 ∷ 5760 ∷ 8232 ∷ 8233 ∷ 8239 ∷ 8287 ∷ 12288 ∷ 65279 ∷ [])

unfoldable pub trim_start : JsString → JsString
trim_start [] = []
trim_start (c ∷ s) = let rest = trim_start s in if is_white c then rest else c ∷ s

unfoldable pub trim_end : JsString → JsString
trim_end [] = []
trim_end (c ∷ s) = let rest = trim_end s in if is_white c && is_empty rest then [] else c ∷ rest

unfoldable pub trim : JsString → JsString
trim s = trim_end (trim_start s)

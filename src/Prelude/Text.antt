-- ===== src/Prelude/Text.antt =====
-- JavaScript strings: sequences of UTF-16 code units, with the string methods that the code uses.
use Prim.Native.Nat.{ℕ}
use Prim.Native.Char.{code}
use Prim.Native.String.{String}
use mathlib.Core.Path.{◌≡◌, refl, ap₂}
use mathlib.Core.Logic.{◌↔◌}
use mathlib.Core.Bool.{Bool, true, false, ◌&&◌, ◌||◌}
use mathlib.Core.List.{List, [], ◌∷◌, ◌++◌}
use mathlib.Core.Option.{Option, none, some}
use native.Mathlib.Omega.{arith}
use ldapwarden.Prelude.Tests.{if◌then◌else◌, ◌==◌, ==_iff, and-eq-true}
use ldapwarden.Prelude.Lists.{any, All}

abbrev pub JsString : Type 0
JsString = List ℕ

-- A literal. The program's literals lie in the basic plane, where a code point is one unit.
abbrev pub text : String → JsString
text String.[] = []
text (String.◌∷◌ c s) = code c ∷ text s

infix 50 ◌===◌
unfoldable pub ◌===◌ : JsString → JsString → Bool
[] === [] = true
(c ∷ s) === (d ∷ t) = c == d && s === t
_ === _ = false

pub ===_refl : (s : JsString) → (s === s) ≡ true
unfolding ◌===◌
===_refl [] = refl
===_refl (c ∷ s) = ground (arith, ===_refl s)

pub ===_eq : (s t : JsString) → (s === t) ≡ true → s ≡ t
unfolding ◌===◌
===_eq [] [] h = refl
===_eq [] (d ∷ t) h = cc
===_eq (c ∷ s) [] h = cc
===_eq (c ∷ s) (d ∷ t) h = let (e, k) = and-eq-true h in ap₂ ◌∷◌ ((==_iff c d).0 e) (===_eq s t k)

pub ===_iff : (s t : JsString) → ((s === t) ≡ true) ↔ (s ≡ t)
===_iff s t = (===_eq s t, λ e. ground (arith, ===_refl s))

pub ===_comm : (s t : JsString) → (s === t) ≡ (t === s)
unfolding ◌===◌
===_comm [] [] = refl
===_comm [] (d ∷ t) = refl
===_comm (c ∷ s) [] = refl
===_comm (c ∷ s) (d ∷ t) = ground (arith, ===_comm s t)

-- A map or an object of texts: `none` where the key is missing.
unfoldable pub look_up : JsString → List (JsString × JsString) → Option JsString
look_up key [] = none
look_up key ((k, v) ∷ pairs) = if k === key then some v else look_up key pairs

-- A string in a test: only the empty one is falsy.
abbrev pub is_empty {ℓ} : {A : Type ℓ} → List A → Bool
is_empty [] = true
is_empty (c ∷ s) = false

abbrev pub includes : JsString → List JsString → Bool
includes s xs = any (λ x. x === s) xs

abbrev pub starts_with : JsString → JsString → Bool
starts_with [] s = true
starts_with (p ∷ ps) [] = false
starts_with (p ∷ ps) (c ∷ s) = p == c && starts_with ps s

-- `haystack.includes(needle)` on strings.
abbrev pub contains : JsString → JsString → Bool
contains p [] = is_empty p
contains p (c ∷ s) = starts_with p (c ∷ s) || contains p s

-- `[...new Set(values)]`, past the values seen.
unfoldable pub unique_from : List JsString → List JsString → List JsString
unique_from seen [] = []
unique_from seen (v ∷ values) =
    let rest = unique_from (v ∷ seen) values in
    let same = unique_from seen values in if includes v seen then same else v ∷ rest

-- Two texts cut at their first delimiter.
pub cut_eq :
    (P : ℕ → Type 0) (v w : JsString) (d : ℕ) (r r' : JsString)
    → ¬ P d
    → All P v
    → All P w
    → v ++ (d ∷ r) ≡ w ++ (d ∷ r')
    → (v ≡ w) × (r ≡ r')
cut_eq P [] [] d r r' nd h k e = (refl, cc)
cut_eq P [] (c ∷ w) d r r' nd h (p, k) e = let same : d ≡ c = cc in absurd (nd (rw same p))
cut_eq P (c ∷ v) [] d r r' nd (p, h) k e = let same : c ≡ d = cc in absurd (nd (rw (← same) p))
cut_eq P (c ∷ v) (b ∷ w) d r r' nd (p, h) (q, k) e =
    let same : c ≡ b = cc in
    let (more, rest) = cut_eq P v w d r r' nd h k (cc) in (ap₂ ◌∷◌ same more, rest)

pub append-cancel : (p : JsString) {s t : JsString} → p ++ s ≡ p ++ t → s ≡ t
append-cancel [] e = e
append-cancel (c ∷ p) e = append-cancel p (cc)

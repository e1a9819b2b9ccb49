-- ===== src/Dn/Padding.antt =====
-- The padding that `decodeDN` restores and that `atob` drops again.
use mathlib.Core.List.{append-nil, append_assoc}
use ldapwarden.Prelude.{
  JsString, length, filter, length-append, All, ℕ, ◌%◌, ◌≡◌, refl, sym, ap, ◌∙◌, ◌≢◌, not, List, [],
  ◌∷◌, ◌++◌, arith,
}
use ldapwarden.Dn.Base64.{digit, is_space, drop_padding}
use ldapwarden.Dn.Codec.{pad}
use ldapwarden.Dn.Encoding.{raw, tail_pad, IsByte, IsDigit, raw-IsDigit}

-- Padding brings the length of any text to a multiple of four.
pub length-pad : (s : JsString) → length (pad 3 s) % 4 ≡ 0
unfolding pad
length-pad s = ground (
  arith,
  length-append s (b'=' ∷ []),
  length-append (s ++ b'=' ∷ []) (b'=' ∷ []),
  length-append ((s ++ b'=' ∷ []) ++ b'=' ∷ []) (b'=' ∷ []),
)

pub pad_none : (s : JsString) → length s % 4 ≡ 0 → pad 3 s ≡ s
unfolding pad
pad_none s h = ground arith

pub pad_one : (s : JsString) → length s % 4 ≡ 3 → pad 3 s ≡ s ++ b'=' ∷ []
unfolding pad
pad_one s h = ground (arith, length-append s (b'=' ∷ []))

pub pad_two : (s : JsString) → length s % 4 ≡ 2 → pad 3 s ≡ (s ++ b'=' ∷ []) ++ b'=' ∷ []
unfolding pad
pad_two s h =
    ground (arith, length-append s (b'=' ∷ []), length-append (s ++ b'=' ∷ []) (b'=' ∷ []))

-- How much padding a sequence of bytes takes.
pub data Padding (s : List ℕ) : Type 0 where
  whole : length (raw s) % 4 ≡ 0 → tail_pad s ≡ [] → Padding s
  one_short : length (raw s) % 4 ≡ 3 → tail_pad s ≡ b'=' ∷ [] → Padding s
  two_short : length (raw s) % 4 ≡ 2 → tail_pad s ≡ b'=' ∷ b'=' ∷ [] → Padding s

pub Padding-cons : {a b c : ℕ} {r : List ℕ} → Padding r → Padding (a ∷ b ∷ c ∷ r)
unfolding raw tail_pad
Padding-cons (whole l e) = whole (omega arith) e
Padding-cons (one_short l e) = one_short (omega arith) e
Padding-cons (two_short l e) = two_short (omega arith) e

pub padding : (s : List ℕ) → Padding s
unfolding raw tail_pad
padding [] = whole refl refl
padding (a ∷ []) = two_short refl refl
padding (a ∷ b ∷ []) = one_short refl refl
padding (a ∷ b ∷ c ∷ r) = Padding-cons (padding r)

pub pad-raw : (s : List ℕ) → pad 3 (raw s) ≡ raw s ++ tail_pad s
pad-raw s = elim (padding s) [
  | whole l e ↦ rw e (pad_none (raw s) l ∙ sym (append-nil (raw s)))
  | one_short l e ↦ rw e (pad_one (raw s) l)
  | two_short l e ↦ rw e (pad_two (raw s) l ∙ append_assoc (raw s) _ _)
]

-- `atob` skips nothing in an encoding, and drops just its padding.
pub kept_digits :
    (s t : JsString)
    → All IsDigit s
    → filter (λ c. not (is_space c)) (s ++ t) ≡ s ++ filter (λ c. not (is_space c)) t
unfolding digit
kept_digits [] t h = refl
kept_digits (c ∷ s) t ((v, lt, e), h) = ground (arith, kept_digits s t h)

pub kept_padding : (s : List ℕ) → filter (λ c. not (is_space c)) (tail_pad s) ≡ tail_pad s
unfolding tail_pad
kept_padding [] = refl
kept_padding (a ∷ []) = refl
kept_padding (a ∷ b ∷ []) = refl
kept_padding (a ∷ b ∷ c ∷ r) = kept_padding r

pub digit-ne-equals : (v : ℕ) → digit v ≢ b'='
unfolding digit
digit-ne-equals v = ground arith

pub drop_padding_none : (s : JsString) → All IsDigit s → drop_padding s ≡ s
unfolding drop_padding
drop_padding_none [] h = refl
drop_padding_none (a ∷ []) ((v, _, e), h) = ground (arith, digit-ne-equals v)
drop_padding_none (a ∷ b ∷ []) (_, ((v, _, e), h)) = ground (arith, digit-ne-equals v)
drop_padding_none (a ∷ b ∷ c ∷ s) (_, h) = ap (◌∷◌ a) (drop_padding_none (b ∷ c ∷ s) h)

pub drop_padding_one : (s : JsString) → All IsDigit s → drop_padding (s ++ b'=' ∷ []) ≡ s
unfolding drop_padding
drop_padding_one [] h = refl
drop_padding_one (a ∷ []) ((v, _, e), h) = ground (arith, digit-ne-equals v)
drop_padding_one (a ∷ b ∷ []) (_, ((v, _, e), h)) = ground (arith, digit-ne-equals v)
drop_padding_one (a ∷ b ∷ c ∷ s) (_, h) = ap (◌∷◌ a) (drop_padding_one (b ∷ c ∷ s) h)

pub drop_padding_two : (s : JsString) → All IsDigit s → drop_padding (s ++ b'=' ∷ b'=' ∷ []) ≡ s
unfolding drop_padding
drop_padding_two [] h = refl
drop_padding_two (a ∷ []) h = refl
drop_padding_two (a ∷ b ∷ []) h = refl
drop_padding_two (a ∷ b ∷ c ∷ s) (_, h) = ap (◌∷◌ a) (drop_padding_two (b ∷ c ∷ s) h)

pub drop_padding-raw : (s : List ℕ) → All IsByte s → drop_padding (raw s ++ tail_pad s) ≡ raw s
drop_padding-raw s h =
    let d = raw-IsDigit s h in
    elim (padding s) [
      | whole l e ↦ rw (e, append-nil (raw s)) (drop_padding_none (raw s) d)
      | one_short l e ↦ rw e (drop_padding_one (raw s) d)
      | two_short l e ↦ rw e (drop_padding_two (raw s) d)
    ]

pub length-encoding : (s : List ℕ) → length (raw s ++ tail_pad s) % 4 ≡ 0
length-encoding s = rw (← pad-raw s) (length-pad (raw s))

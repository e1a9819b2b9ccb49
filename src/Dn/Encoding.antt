-- ===== src/Dn/Encoding.antt =====
-- Base64 as digits of six bits followed by padding, and its decoding.
use ldapwarden.Prelude.{
  JsString, All, ℕ, ◌+◌, ◌*◌, ◌/◌, ◌%◌, ◌<◌, ◌≡◌, refl, ap, some, List, [], ◌∷◌, ◌++◌, arith,
}
use ldapwarden.Dn.Base64.{digit, undigit, encode, decode}

-- The encoding without its padding.
unfoldable pub raw : List ℕ → JsString
raw [] = []
raw (a ∷ []) = digit (a / 4) ∷ digit (a % 4 * 16) ∷ []
raw (a ∷ b ∷ []) = digit (a / 4) ∷ digit (a % 4 * 16 + b / 16) ∷ digit (b % 16 * 4) ∷ []
raw (a ∷ b ∷ c ∷ r) =
    digit (a / 4)
    ∷ digit (a % 4 * 16 + b / 16)
    ∷ digit (b % 16 * 4 + c / 64)
    ∷ digit (c % 64)
    ∷ raw r

unfoldable pub tail_pad : List ℕ → JsString
tail_pad [] = []
tail_pad (a ∷ []) = b'=' ∷ b'=' ∷ []
tail_pad (a ∷ b ∷ []) = b'=' ∷ []
tail_pad (a ∷ b ∷ c ∷ r) = tail_pad r

pub encode-raw : (s : List ℕ) → encode s ≡ raw s ++ tail_pad s
unfolding encode raw tail_pad
encode-raw [] = refl
encode-raw (a ∷ []) = refl
encode-raw (a ∷ b ∷ []) = refl
encode-raw (a ∷ b ∷ c ∷ r) = rw (encode-raw r)

pub undigit-digit : (v : ℕ) → v < 64 → undigit (digit v) ≡ some v
unfolding undigit digit
undigit-digit v h = ground arith

abbrev pub IsByte : ℕ → Type 0
IsByte c = c < 256

pub decode-raw : (s : List ℕ) → All IsByte s → decode (raw s) ≡ some s
unfolding decode raw
decode-raw [] h = refl
decode-raw (a ∷ []) h =
    rw (undigit-digit (a / 4) (omega arith), undigit-digit (a % 4 * 16) (omega arith))
      (ap (λ x. some (x ∷ [])) (omega arith))
decode-raw (a ∷ b ∷ []) h =
    rw
      (
        undigit-digit (a / 4) (omega arith),
        undigit-digit (a % 4 * 16 + b / 16) (omega arith),
        undigit-digit (b % 16 * 4) (omega arith),
      )
      (ground arith)
decode-raw (a ∷ b ∷ c ∷ r) h =
    rw
      (
        undigit-digit (a / 4) (omega arith),
        undigit-digit (a % 4 * 16 + b / 16) (omega arith),
        undigit-digit (b % 16 * 4 + c / 64) (omega arith),
        undigit-digit (c % 64) (omega arith),
        decode-raw r h.1.1.1,
      )
      (ground arith)

-- A character of the alphabet: a letter, a digit, `+` or `/`.
abbrev pub IsDigit : ℕ → Type 0
IsDigit c = (v : ℕ) × (v < 64) × (c ≡ digit v)

pub raw-IsDigit : (s : List ℕ) → All IsByte s → All IsDigit (raw s)
unfolding raw
raw-IsDigit [] h = tt
raw-IsDigit (a ∷ []) h = ((_, omega arith, refl), ((_, omega arith, refl), tt))
raw-IsDigit (a ∷ b ∷ []) h =
    ((_, omega arith, refl), ((_, omega arith, refl), ((_, omega arith, refl), tt)))
raw-IsDigit (a ∷ b ∷ c ∷ r) h = (
  (_, omega arith, refl),
  (
    (_, omega arith, refl),
    ((_, omega arith, refl), ((_, omega arith, refl), raw-IsDigit r h.1.1.1)),
  ),
)

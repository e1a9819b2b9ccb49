-- ===== src/Api/Uri/Percent.antt =====
-- Percent-decoding, as a server does it.
use ldapwarden.Prelude.{
  ltb, ◌==◌, if◌then◌else◌, JsString, All, ℕ, ◌+◌, ◌-◌, ◌*◌, ◌/◌, ◌%◌, ◌<◌, ◌≡◌, refl, ◌≢◌, List,
  [], ◌∷◌, ◌++◌, arith,
}
use ldapwarden.Api.Uri.{hex_digit, escape_all}

unfoldable pub hex_value : ℕ → ℕ
hex_value c = if ltb c 58 then c - b'0' else c - 55

-- Percent-decoding; `plus` is what a plus sign stands for.
unfoldable pub unescape : ℕ → JsString → List ℕ
unescape plus [] = []
unescape plus (c ∷ []) = (if c == b'+' then plus else c) ∷ []
unescape plus (c ∷ d ∷ []) = (if c == b'+' then plus else c) ∷ unescape plus (d ∷ [])
unescape plus (c ∷ h ∷ l ∷ s) =
    let after = unescape plus s in
    let rest = unescape plus (h ∷ l ∷ s) in
    if c == b'%'
    then (16 * hex_value h + hex_value l) ∷ after
    else (if c == b'+' then plus else c) ∷ rest

hex_value-hex_digit : (n : ℕ) → n < 16 → hex_value (hex_digit n) ≡ n
unfolding hex_value hex_digit
hex_value-hex_digit n h = ground arith

pub unescape-escape_all :
    (plus : ℕ) (bs : List ℕ) (s : JsString)
    → All (λ b. b < 256) bs
    → unescape plus (escape_all bs ++ s) ≡ bs ++ unescape plus s
unfolding unescape escape_all
unescape-escape_all plus [] s h = refl
unescape-escape_all plus (b ∷ bs) s (p, h) =
    let e : 16 * (b / 16) + b % 16 ≡ b = omega arith in
    rw
      (
        hex_value-hex_digit (b / 16) (omega arith),
        hex_value-hex_digit (b % 16) (omega arith),
        unescape-escape_all plus bs s h,
        e,
      )
      refl

pub unescape-plain :
    (plus c : ℕ) (s : JsString) → c ≢ b'%' → c ≢ b'+' → unescape plus (c ∷ s) ≡ c ∷ unescape plus s
unfolding unescape
unescape-plain plus c [] p q = ground arith
unescape-plain plus c (d ∷ []) p q = ground arith
unescape-plain plus c (d ∷ e ∷ s) p q = ground arith

pub unescape-plus : (plus : ℕ) (s : JsString) → unescape plus (b'+' ∷ s) ≡ plus ∷ unescape plus s
unfolding unescape
unescape-plus plus [] = refl
unescape-plus plus (d ∷ []) = refl
unescape-plus plus (d ∷ e ∷ s) = refl

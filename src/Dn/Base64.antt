-- ===== src/Dn/Base64.antt =====
-- The browser's `btoa` and `atob`, which web/src/lib/utils.ts calls: Base64 over the code units of
-- a string. `none` is the exception InvalidCharacterError.
use ldapwarden.Prelude.{
  ltb, leb, ◌==◌, if◌then◌else◌, ◌>>=◌, JsString, length, filter, all, ℕ, ◌+◌, ◌-◌, ◌*◌, ◌/◌, ◌%◌,
  Bool, not, ◌&&◌, ◌||◌, Option, none, some, List, [], ◌∷◌,
}

-- The character for a value of six bits.
unfoldable pub digit : ℕ → ℕ
digit v =
    if ltb v 26
    then v + b'A'
    else if ltb v 52
    then v + 71
    else if ltb v 62
    then v - 4
    else if v == 62
    then b'+'
    else b'/'

unfoldable pub undigit : ℕ → Option ℕ
undigit c =
    if leb b'A' c && leb c b'Z'
    then some (c - b'A')
    else if leb b'a' c && leb c b'z'
    then some (c - 71)
    else if leb b'0' c && leb c b'9'
    then some (c + 4)
    else if c == b'+'
    then some 62
    else if c == b'/'
    then some 63
    else none

unfoldable pub encode : List ℕ → JsString
encode [] = []
encode (a ∷ []) = digit (a / 4) ∷ digit (a % 4 * 16) ∷ b'=' ∷ b'=' ∷ []
encode (a ∷ b ∷ []) = digit (a / 4) ∷ digit (a % 4 * 16 + b / 16) ∷ digit (b % 16 * 4) ∷ b'=' ∷ []
encode (a ∷ b ∷ c ∷ r) =
    digit (a / 4)
    ∷ digit (a % 4 * 16 + b / 16)
    ∷ digit (b % 16 * 4 + c / 64)
    ∷ digit (c % 64)
    ∷ encode r

unfoldable pub btoa : JsString → Option JsString
btoa s = if all (λ c. ltb c 256) s then some (encode s) else none

-- Whole groups of four, then a last group of two or three; the bits left over are dropped.
unfoldable pub decode : JsString → Option (List ℕ)
decode [] = some []
decode (p ∷ []) = none
decode (p ∷ q ∷ []) = do a ← undigit p; b ← undigit q; some ((a * 4 + b / 16) ∷ [])
decode (p ∷ q ∷ r ∷ []) = do
  a ← undigit p
  b ← undigit q
  c ← undigit r
  some ((a * 4 + b / 16) ∷ (b % 16 * 16 + c / 4) ∷ [])
decode (p ∷ q ∷ r ∷ s ∷ t) = do
  a ← undigit p
  b ← undigit q
  c ← undigit r
  d ← undigit s
  rest ← decode t
  some ((a * 4 + b / 16) ∷ (b % 16 * 16 + c / 4) ∷ (c % 4 * 64 + d) ∷ rest)

-- ASCII white space, which `atob` skips.
abbrev pub is_space : ℕ → Bool
is_space c = c == 9 || c == 10 || c == 12 || c == 13 || c == 32

-- One or two `=` at the end.
unfoldable pub drop_padding : JsString → JsString
drop_padding [] = []
drop_padding (p ∷ []) = if p == b'=' then [] else p ∷ []
drop_padding (p ∷ q ∷ []) = if q == b'=' then (if p == b'=' then [] else p ∷ []) else p ∷ q ∷ []
drop_padding (p ∷ q ∷ r ∷ s) = p ∷ drop_padding (q ∷ r ∷ s)

unfoldable pub atob : JsString → Option JsString
atob s =
    let t = filter (λ c. not (is_space c)) s in
    decode (if length t % 4 == 0 then drop_padding t else t)

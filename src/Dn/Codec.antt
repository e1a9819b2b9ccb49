-- ===== src/Dn/Codec.antt =====
-- `encodeDN` and `decodeDN` of web/src/lib/utils.ts: a DN as a URL segment, and back.
use ldapwarden.Prelude.{
  ◌==◌, if◌then◌else◌, ◌>>=◌, JsString, is_empty, length, ℕ, zero, suc, ◌%◌, ◌&&◌, Option, some, [],
  ◌∷◌, ◌++◌, map,
}
use ldapwarden.Dn.Base64.{btoa, atob}

-- `s.replace(/x/g, y)` for single characters.
abbrev pub replace_all : ℕ → ℕ → JsString → JsString
replace_all x y = map (λ c. if c == x then y else c)

-- `s.replace(/x+$/, '')`.
unfoldable pub drop_trailing : ℕ → JsString → JsString
drop_trailing x [] = []
drop_trailing x (c ∷ s) =
    let rest = drop_trailing x s in if c == x && is_empty rest then [] else c ∷ rest

unfoldable pub encode_dn : JsString → Option JsString
encode_dn dn = do
  base64 ← btoa dn
  some (drop_trailing b'=' (replace_all b'/' b'_' (replace_all b'+' b'-' base64)))

-- `while (base64.length % 4) base64 += '='`.
unfoldable pub pad : ℕ → JsString → JsString
pad zero base64 = base64
pad (suc fuel) base64 =
    let more = pad fuel (base64 ++ b'=' ∷ []) in if length base64 % 4 == 0 then base64 else more

-- Three rounds, by `length-pad` of Dn/Padding.
unfoldable pub decode_dn : JsString → Option JsString
decode_dn encoded = atob (pad 3 (replace_all b'_' b'/' (replace_all b'-' b'+' encoded)))

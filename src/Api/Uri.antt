-- ===== src/Api/Uri.antt =====
-- Text in URLs: what JavaScript's `encodeURIComponent` and `URLSearchParams` make of it, as
-- web/src/lib/api.ts uses them. A JavaScript string is a sequence of UTF-16 code units.
pub mod Percent
pub mod Utf8
pub mod SegmentLaws
use mathlib.Core.Option
use ldapwarden.Prelude.{
  ltb, leb, ◌==◌, if◌then◌else◌, JsString, text, any, ℕ, ◌+◌, ◌-◌, ◌*◌, ◌/◌, ◌%◌, Bool, ◌&&◌, ◌||◌,
  Option, none, some, List, [], ◌∷◌, ◌++◌, map,
}

abbrev pub is_high : ℕ → Bool
is_high c = leb 55296 c && ltb c 56320

abbrev pub is_low : ℕ → Bool
is_low c = leb 56320 c && ltb c 57344

abbrev pub join : ℕ → ℕ → ℕ
join high low = 65536 + (high - 55296) * 1024 + (low - 56320)

-- The code points of a text; none where a surrogate stands alone.
unfoldable pub code_points : JsString → Option (List ℕ)
code_points [] = some []
code_points (c ∷ []) = if is_high c || is_low c then none else some (c ∷ [])
code_points (c ∷ d ∷ s) =
    let paired = code_points s in
    let single = code_points (d ∷ s) in
    if is_high c
    then if is_low d then Option.map (◌∷◌ (join c d)) paired else none
    else if is_low c
    then none
    else Option.map (◌∷◌ c) single

-- The same with U+FFFD in place of a surrogate that stands alone, as `URLSearchParams` reads text.
unfoldable pub scalar_values : JsString → List ℕ
scalar_values [] = []
scalar_values (c ∷ []) = if is_high c || is_low c then 65533 ∷ [] else c ∷ []
scalar_values (c ∷ d ∷ s) =
    let paired = scalar_values s in
    let single = scalar_values (d ∷ s) in
    if is_high c
    then if is_low d then join c d ∷ paired else 65533 ∷ single
    else if is_low c
    then 65533 ∷ single
    else c ∷ single

-- UTF-8.
unfoldable pub utf8 : ℕ → List ℕ
utf8 p =
    if ltb p 128
    then p ∷ []
    else if ltb p 2048
    then (192 + p / 64) ∷ (128 + p % 64) ∷ []
    else if ltb p 65536
    then (224 + p / 4096) ∷ (128 + p / 64 % 64) ∷ (128 + p % 64) ∷ []
    else (240 + p / 262144) ∷ (128 + p / 4096 % 64) ∷ (128 + p / 64 % 64) ∷ (128 + p % 64) ∷ []

unfoldable pub hex_digit : ℕ → ℕ
hex_digit n = if ltb n 10 then b'0' + n else 55 + n

unfoldable pub escape_all : List ℕ → JsString
escape_all [] = []
escape_all (b ∷ bs) = b'%' ∷ hex_digit (b / 16) ∷ hex_digit (b % 16) ∷ escape_all bs

abbrev pub is_alphanumeric : ℕ → Bool
is_alphanumeric c =
    (leb b'0' c && ltb c 58) || (leb b'A' c && ltb c 91) || (leb b'a' c && ltb c 123)

-- What stays as it is in a component: letters, digits and - _ . ! ~ * ' ( ).
unfoldable pub is_unreserved : ℕ → Bool
is_unreserved c = is_alphanumeric c || (any (λ k. k == c) (text "-_.!~*'()"))

-- What stays as it is in a query of `URLSearchParams`.
unfoldable pub is_form_safe : ℕ → Bool
is_form_safe c = is_alphanumeric c || (any (λ k. k == c) (text "*-._"))

unfoldable pub encode_point : (ℕ → Bool) → ℕ → JsString
encode_point kept p = if kept p then p ∷ [] else escape_all (utf8 p)

unfoldable pub encode_points : (ℕ → JsString) → List ℕ → JsString
encode_points f [] = []
encode_points f (p ∷ ps) = f p ++ encode_points f ps

-- It throws on a surrogate that stands alone.
unfoldable pub encode_uri_component : JsString → Option JsString
encode_uri_component s = Option.map (encode_points (encode_point is_unreserved)) (code_points s)

unfoldable pub form_point : ℕ → JsString
form_point p = if p == b' ' then b'+' ∷ [] else encode_point is_form_safe p

unfoldable pub form_text : JsString → JsString
form_text s = encode_points form_point (scalar_values s)

-- ===== src/Password.antt =====
-- web/src/lib/password.ts: generated passwords. The bytes of `crypto.getRandomValues` are an
-- argument: the buffers that it fills, one after the other.
pub mod Laws
mod Tests
use ldapwarden.Prelude.{
  ltb, ◌==◌, if◌then◌else◌, JsString, text, length, get_or, ℕ, ◌*◌, ◌/◌, ◌%◌, Option, none, some,
  List, [], ◌∷◌, ◌++◌,
}

abbrev pub generate_alphabet : JsString
generate_alphabet = text "abcdefghijkmnopqrstuvwxyzABCDEFGHJKLMNPQRSTUVWXYZ23456789!@#$%^&*-_=+"

abbrev pub generate_length : ℕ
generate_length = 20

abbrev pub alphabet_length : ℕ
alphabet_length = length generate_alphabet

-- `max`: the largest multiple of the length of the alphabet that a byte can stay below.
abbrev pub max_byte : ℕ
max_byte = 256 / alphabet_length * alphabet_length

unfoldable pub char_of : ℕ → ℕ
char_of byte = get_or generate_alphabet (byte % alphabet_length) 0

-- The inner loop over a buffer, up to its `break`.
unfoldable pub take_bytes : ℕ → List ℕ → JsString → JsString
take_bytes n [] out = out
take_bytes n (byte ∷ bytes) out =
    let more = take_bytes n bytes (if ltb byte max_byte then out ++ char_of byte ∷ [] else out) in
    if length out == n then out else more

-- The outer loop; `none` where it asks for more buffers than there are.
unfoldable pub generate_password : ℕ → List (List ℕ) → JsString → Option JsString
generate_password n [] out = if ltb (length out) n then none else some out
generate_password n (buffer ∷ buffers) out =
    let more = generate_password n buffers (take_bytes n buffer out) in
    if ltb (length out) n then more else some out

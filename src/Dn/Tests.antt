-- ===== src/Dn/Tests.antt =====
-- Runs of the DN codec, and its theorems at a concrete DN.
use ldapwarden.Prelude.{JsString, text, All, ◌≡◌, refl, none, some, arith}
use ldapwarden.Dn.Base64.{btoa, atob, encode, decode, digit, undigit, drop_padding}
use ldapwarden.Dn.RoundTrip.{decode_dn-encode_dn}
use ldapwarden.Dn.UrlAlphabet.{IsUrlSafe}
use ldapwarden.Dn.Codec.{encode_dn, decode_dn, pad, drop_trailing}

codec : Unit {0}
unfolding btoa atob encode decode digit undigit drop_padding encode_dn decode_dn pad drop_trailing
codec = tt

encode_dn_tests :
    (encode_dn (text "uid=jdoe,ou=P?>~") ≡ some (text "dWlkPWpkb2Usb3U9UD8-fg"))
    × (decode_dn (text "dWlkPWpkb2Usb3U9UD8-fg") ≡ some (text "uid=jdoe,ou=P?>~"))
    × (encode_dn (text "cn=Łukasz") ≡ none)
    × (decode_dn (text "a") ≡ none)
unfolding codec
encode_dn_tests = (refl, refl, refl, refl)

decode_dn-encode_dn_example :
    (e : JsString) × (encode_dn (text "cn=a") ≡ some e)
    × All IsUrlSafe e
    × (decode_dn e ≡ some (text "cn=a"))
decode_dn-encode_dn_example =
    decode_dn-encode_dn (text "cn=a") (omega arith, (omega arith, (omega arith, (omega arith, tt))))

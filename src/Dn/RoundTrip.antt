-- ===== src/Dn/RoundTrip.antt =====
-- The way of a DN through `encodeDN` and `decodeDN`.
use ldapwarden.Prelude.{
  ltb, JsString, all, All, ℕ, ◌<◌, ◌≡◌, refl, true, false, none, some, List, [], ◌∷◌, ◌++◌, arith,
}
use ldapwarden.Dn.Base64.{btoa, atob}
use ldapwarden.Dn.Codec.{encode_dn, decode_dn}
use ldapwarden.Dn.Encoding.{raw, tail_pad, encode-raw, IsByte, decode-raw, raw-IsDigit}
use ldapwarden.Dn.UrlAlphabet.{
  to_url, IsUrlSafe, to_url-IsUrlSafe, from_url-to_url, drop_trailing-append, to_url-append,
  tail_pad-IsEquals,
}
use ldapwarden.Dn.Padding.{pad-raw, kept_digits, kept_padding, drop_padding-raw, length-encoding}

all_bytes : (s : JsString) → All IsByte s → all (λ c. ltb c 256) s ≡ true
all_bytes [] h = refl
all_bytes (c ∷ s) (p, h) = ground (arith, all_bytes s h)

-- What `encodeDN` returns for a DN of bytes.
encode_dn-raw : (dn : JsString) → All IsByte dn → encode_dn dn ≡ some (to_url (raw dn))
unfolding encode_dn btoa
encode_dn-raw dn h =
    let safe = to_url-IsUrlSafe (raw dn) (raw-IsDigit dn h) in
    rw (
      all_bytes dn h,
      encode-raw dn,
      to_url-append (raw dn) (tail_pad dn),
      drop_trailing-append (to_url (raw dn)) (to_url (tail_pad dn)) safe (tail_pad-IsEquals dn),
    )

decode_dn-to_url : (s : List ℕ) → All IsByte s → decode_dn (to_url (raw s)) ≡ some s
unfolding decode_dn atob
decode_dn-to_url s h =
    let d = raw-IsDigit s h in
    rw
      (
        from_url-to_url (raw s) d,
        pad-raw s,
        kept_digits (raw s) (tail_pad s) d,
        kept_padding s,
        length-encoding s,
        drop_padding-raw s h,
      )
      (decode-raw s h)

-- For a DN whose code units are all below 256, `encodeDN` answers, what it answers consists of
-- letters, digits, `-` and `_` alone, and `decodeDN` gives the DN back from it.
pub decode_dn-encode_dn :
    (dn : JsString)
    → All IsByte dn
    → (e : JsString) × (encode_dn dn ≡ some e) × All IsUrlSafe e × (decode_dn e ≡ some dn)
decode_dn-encode_dn dn h = (
  to_url (raw dn),
  encode_dn-raw dn h,
  to_url-IsUrlSafe (raw dn) (raw-IsDigit dn h),
  decode_dn-to_url dn h,
)

not_all_bytes : (s t : JsString) (c : ℕ) → 255 < c → all (λ d. ltb d 256) (s ++ c ∷ t) ≡ false
not_all_bytes [] t c h = ground arith
not_all_bytes (d ∷ s) t c h = ground (arith, not_all_bytes s t c h)

-- `encodeDN` throws on every DN that holds a code unit above 255, wherever it stands.
pub encode_dn_throws : (s t : JsString) (c : ℕ) → 255 < c → encode_dn (s ++ c ∷ t) ≡ none
unfolding encode_dn btoa
encode_dn_throws s t c h = rw (not_all_bytes s t c h)

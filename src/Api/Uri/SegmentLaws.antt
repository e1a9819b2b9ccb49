-- ===== src/Api/Uri/SegmentLaws.antt =====
-- A text in a URL path or query, as a server reads it.
use ldapwarden.Prelude.{
  ltb, ◌==◌, Bool-cases, JsString, all, All, All-append, ℕ, ◌/◌, ◌%◌, ◌<◌, ◌≡◌, refl, sym, ap, ◌∙◌,
  subst, ◌≢◌, inl, inr, Bool, true, false, some, List, [], ◌∷◌, ◌++◌, arith,
}
use ldapwarden.Api.Uri.{
  is_high, is_low, join, scalar_values, code_points, utf8, escape_all, hex_digit, is_unreserved,
  is_form_safe, encode_point, encode_points, encode_uri_component, form_point, form_text,
}
use ldapwarden.Api.Uri.Percent.{unescape, unescape-escape_all, unescape-plain, unescape-plus}
use ldapwarden.Api.Uri.Utf8.{
  decode_utf8, units, IsPoint, IsUnit, map-some, utf8-bytes, decode_utf8-utf8, code_points-Spells,
}

-- A set of characters that may stay as they are.
abbrev IsPlainSet : (ℕ → Bool) → Type 0
IsPlainSet kept = (c : ℕ) → kept c ≡ true → (c < 128) × (c ≢ b'%') × (c ≢ b'+')

is_unreserved-IsPlainSet : IsPlainSet is_unreserved
unfolding is_unreserved
is_unreserved-IsPlainSet c h = ground arith

is_form_safe-IsPlainSet : IsPlainSet is_form_safe
unfolding is_form_safe
is_form_safe-IsPlainSet c h = ground arith

utf8-ascii : (p : ℕ) → p < 128 → utf8 p ≡ p ∷ []
unfolding utf8
utf8-ascii p h = ground arith

unescape-encode_point :
    (kept : ℕ → Bool) (plus p : ℕ) (s : JsString)
    → IsPlainSet kept
    → IsPoint p
    → unescape plus (encode_point kept p ++ s) ≡ utf8 p ++ unescape plus s
unfolding encode_point
unescape-encode_point kept plus p s k h = elim (Bool-cases (kept p)) [
  | inl e ↦ let (small, a, b) = k p e in rw (e, utf8-ascii p small) (unescape-plain plus p s a b)
  | inr e ↦ rw e (unescape-escape_all plus (utf8 p) s (utf8-bytes p h))
]

-- What an encoding of a code point does to a server that percent-decodes it.
abbrev IsReadable : ℕ → (ℕ → JsString) → Type 0
IsReadable plus f =
    (p : ℕ) (s : JsString) → IsPoint p → unescape plus (f p ++ s) ≡ utf8 p ++ unescape plus s

form_point-IsReadable : IsReadable b' ' form_point
unfolding form_point utf8
form_point-IsReadable p s h = elim (Bool-cases (p == b' ')) [
  | inl e ↦ let same : p ≡ b' ' = ground arith in rw (e, same) (unescape-plus b' ' s)
  | inr e ↦ rw e (unescape-encode_point is_form_safe b' ' p s is_form_safe-IsPlainSet h)
]

decode-encode_points :
    (plus : ℕ) (f : ℕ → JsString) (ps : List ℕ)
    → IsReadable plus f
    → All IsPoint ps
    → decode_utf8 0 0 (unescape plus (encode_points f ps)) ≡ ps
unfolding encode_points unescape decode_utf8
decode-encode_points plus f [] r h = refl
decode-encode_points plus f (p ∷ ps) r (k, h) =
    ap (decode_utf8 0 0) (r p (encode_points f ps) k)
    ∙ decode_utf8-utf8 p (unescape plus (encode_points f ps)) k
    ∙ ap (◌∷◌ p) (decode-encode_points plus f ps r h)

-- What a server reads in a path segment: percent-decoding, then UTF-8, as UTF-16 again.
unfoldable pub read_segment : JsString → JsString
read_segment s = units (decode_utf8 0 0 (unescape b'+' s))

-- A character that cannot end a path segment, nor be part of a sequence that does.
abbrev pub IsSegmentChar : ℕ → Type 0
IsSegmentChar c = (c ≢ b'/') × (c ≢ b'?') × (c ≢ b'#') × (c ≢ b'&') × (c ≢ b'=')

hex_digit-IsSegmentChar : (n : ℕ) → n < 16 → IsSegmentChar (hex_digit n)
unfolding hex_digit
hex_digit-IsSegmentChar n h = (ground arith, ground arith, ground arith, ground arith, ground arith)

is_unreserved-IsSegmentChar : (c : ℕ) → is_unreserved c ≡ true → IsSegmentChar c
unfolding is_unreserved
is_unreserved-IsSegmentChar c h =
    (ground arith, ground arith, ground arith, ground arith, ground arith)

escape_all-IsSegmentChar : (bs : List ℕ) → All (λ b. b < 256) bs → All IsSegmentChar (escape_all bs)
unfolding escape_all
escape_all-IsSegmentChar [] h = tt
escape_all-IsSegmentChar (b ∷ bs) (k, h) = (
  (ground arith, ground arith, ground arith, ground arith, ground arith),
  (
    hex_digit-IsSegmentChar (b / 16) (omega arith),
    (hex_digit-IsSegmentChar (b % 16) (omega arith), escape_all-IsSegmentChar bs h),
  ),
)

encode_point-IsSegmentChar :
    (kept : ℕ → Bool) (p : ℕ)
    → ((c : ℕ) → kept c ≡ true → IsSegmentChar c)
    → IsPoint p
    → All IsSegmentChar (encode_point kept p)
unfolding encode_point
encode_point-IsSegmentChar kept p k h = elim (Bool-cases (kept p)) [
  | inl e ↦ rw e (k p e, tt)
  | inr e ↦ rw e (escape_all-IsSegmentChar (utf8 p) (utf8-bytes p h))
]

encode_points-IsSegmentChar :
    (f : ℕ → JsString) (ps : List ℕ)
    → ((p : ℕ) → IsPoint p → All IsSegmentChar (f p))
    → All IsPoint ps
    → All IsSegmentChar (encode_points f ps)
unfolding encode_points
encode_points-IsSegmentChar f [] k h = tt
encode_points-IsSegmentChar f (p ∷ ps) k (j, h) =
    All-append IsSegmentChar (f p) (encode_points f ps) (k p j)
      (encode_points-IsSegmentChar f ps k h)

-- What `encodeURIComponent` returns holds no delimiter of a URL, and a server that decodes the
-- segment reads the text that was given.
pub read_segment-encode_uri_component :
    (s e : JsString)
    → All IsUnit s
    → encode_uri_component s ≡ some e
    → All IsSegmentChar e × (read_segment e ≡ s)
unfolding encode_uri_component read_segment
read_segment-encode_uri_component s e h found =
    let (ps, points, same) =
      map-some (encode_points (encode_point is_unreserved)) (code_points s) e found in
    let (valid, spelled) = code_points-Spells s ps h points in
    (
      subst (All IsSegmentChar) same (
          encode_points-IsSegmentChar (encode_point is_unreserved) ps
            (λ p k. encode_point-IsSegmentChar is_unreserved p is_unreserved-IsSegmentChar k)
            valid),
      ap (λ t. units (decode_utf8 0 0 (unescape b'+' t))) (sym same)
          ∙ ap units (
              decode-encode_points b'+' (encode_point is_unreserved) ps
                (λ p t k. unescape-encode_point is_unreserved b'+' p t is_unreserved-IsPlainSet k)
                valid)
          ∙ spelled,
    )

-- The scalar values of a text without lone surrogates are its code points.
scalar_values-code_points :
    (s : JsString) (ps : List ℕ) → code_points s ≡ some ps → scalar_values s ≡ ps
unfolding scalar_values code_points
scalar_values-code_points [] ps e = ground arith
scalar_values-code_points (c ∷ []) ps e = ground arith
scalar_values-code_points (c ∷ d ∷ s) ps e = elim (Bool-cases (is_high c)) [
  | inl hi ↦ elim (Bool-cases (is_low d)) [
    | inl lo ↦
        let (qs, found, same) = map-some (◌∷◌ (join c d)) (code_points s) ps (ground arith) in
        rw (hi, lo, scalar_values-code_points s qs found) same
    | inr lo ↦ absurd (ground arith)
  ]
  | inr hi ↦ elim (Bool-cases (is_low c)) [
    | inl lo ↦ absurd (ground arith)
    | inr lo ↦
        let (qs, found, same) = map-some (◌∷◌ c) (code_points (d ∷ s)) ps (ground arith) in
        rw (hi, lo, scalar_values-code_points (d ∷ s) qs found) same
  ]
]

-- A text in which no surrogate stands alone.
abbrev pub IsText : JsString → Type 0
IsText s = All IsUnit s × ((ps : List ℕ) × (code_points s ≡ some ps))

-- What a server reads in a key or a value of a query: a plus sign is a space.
unfoldable pub read_value : JsString → JsString
read_value s = units (decode_utf8 0 0 (unescape b' ' s))

is_form_safe-IsSegmentChar : (c : ℕ) → is_form_safe c ≡ true → IsSegmentChar c
unfolding is_form_safe
is_form_safe-IsSegmentChar c h =
    (ground arith, ground arith, ground arith, ground arith, ground arith)

form_point-IsSegmentChar : (p : ℕ) → IsPoint p → All IsSegmentChar (form_point p)
unfolding form_point
form_point-IsSegmentChar p h = elim (Bool-cases (p == b' ')) [
  | inl e ↦ rw e ((ground arith, ground arith, ground arith, ground arith, ground arith), tt)
  | inr e ↦ rw e (encode_point-IsSegmentChar is_form_safe p is_form_safe-IsSegmentChar h)
]

-- A key or a value of a query holds no delimiter of a query, and is read back as it was given.
pub form_text-read_value :
    (s : JsString) → IsText s → All IsSegmentChar (form_text s) × (read_value (form_text s) ≡ s)
unfolding form_text read_value
form_text-read_value s (h, (ps, points)) =
    let (valid, spelled) = code_points-Spells s ps h points in
    rw (scalar_values-code_points s ps points) (
      encode_points-IsSegmentChar form_point ps form_point-IsSegmentChar valid,
      ap units (decode-encode_points b' ' form_point ps form_point-IsReadable valid) ∙ spelled,
    )

-- A text of ASCII characters.
pub IsText-ascii : (s : JsString) → all (λ c. ltb c 128) s ≡ true → IsText s
unfolding code_points
IsText-ascii [] h = (tt, ([], refl))
IsText-ascii (c ∷ []) h = ((ground arith, tt), (c ∷ [], ground arith))
IsText-ascii (c ∷ d ∷ s) h =
    let (valid, (ps, points)) = IsText-ascii (d ∷ s) (ground arith) in
    let plain : (is_high c ≡ false) × (is_low c ≡ false) = (ground arith, ground arith) in
    ((ground arith, valid), (c ∷ ps, rw (plain.0, plain.1, points) refl))

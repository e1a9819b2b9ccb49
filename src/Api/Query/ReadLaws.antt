-- ===== src/Api/Query/ReadLaws.antt =====
-- The pairs of a query, as a server parses it.
use ldapwarden.Prelude.{
  split_on, split_on-none, split_on-append, cut_at, cut_at-append, JsString, is_empty, All,
  All-append, All-weaken, ℕ, ◌≡◌, refl, ap, ap₂, ◌∙◌, ◌≢◌, false, List, [], ◌∷◌, ◌++◌, map, arith,
}
use ldapwarden.Api.Uri.{form_text}
use ldapwarden.Api.Uri.SegmentLaws.{IsText, read_value, form_text-read_value}
use ldapwarden.Api.Query.{pair_text, to_string}

unfoldable pub read_pair : JsString → JsString × JsString
read_pair s = let parts = cut_at b'=' s in (read_value parts.0, read_value parts.1)

-- The pairs of a query, as a server parses it.
unfoldable pub read_query : JsString → List (JsString × JsString)
read_query [] = []
read_query (c ∷ s) = map read_pair (split_on b'&' (c ∷ s))

abbrev pub IsPair : JsString × JsString → Type 0
IsPair p = IsText p.0 × IsText p.1

read_pair-pair_text : (p : JsString × JsString) → IsPair p → read_pair (pair_text p) ≡ p
unfolding read_pair pair_text
read_pair-pair_text (k, v) (a, b) =
    let (safe, key) = form_text-read_value k a in
    let (_, value) = form_text-read_value v b in
    let parts : cut_at b'=' (form_text k ++ (b'=' ∷ form_text v)) ≡ (form_text k, form_text v) =
      cut_at-append b'=' (form_text k) (form_text v) (All-weaken (form_text k) (λ c h. h.4) safe) in
    rw parts (ap₂ (λ x y. (x, y)) key value)

pair_text-plain : (p : JsString × JsString) → IsPair p → All (λ c. c ≢ b'&') (pair_text p)
unfolding pair_text
pair_text-plain (k, v) (a, b) =
    All-append (λ c. c ≢ b'&') (form_text k) (b'=' ∷ form_text v)
      (All-weaken (form_text k) (λ c h. h.3) (form_text-read_value k a).0)
      ((λ e. ground arith), All-weaken (form_text v) (λ c h. h.3) (form_text-read_value v b).0)

split_pairs :
    (p : JsString × JsString) (ps : List (JsString × JsString))
    → IsPair p
    → All IsPair ps
    → map read_pair (split_on b'&' (to_string (p ∷ ps))) ≡ p ∷ ps
unfolding to_string
split_pairs p [] h hs =
    ap (map read_pair) (split_on-none b'&' (pair_text p) (pair_text-plain p h))
    ∙ ap (λ x. x ∷ []) (read_pair-pair_text p h)
split_pairs p (q ∷ ps) h (k, hs) =
    ap (map read_pair)
      (split_on-append b'&' (pair_text p) (to_string (q ∷ ps)) (pair_text-plain p h))
    ∙ ap₂ ◌∷◌ (read_pair-pair_text p h) (split_pairs q ps k hs)

read_nonempty : (s : JsString) → is_empty s ≡ false → read_query s ≡ map read_pair (split_on b'&' s)
unfolding read_query
read_nonempty [] h = cc
read_nonempty (c ∷ s) h = refl

nonempty_append : (s t : JsString) (c : ℕ) → is_empty (s ++ (c ∷ t)) ≡ false
nonempty_append [] t c = refl
nonempty_append (d ∷ s) t c = refl

pub to_string-nonempty :
    (p : JsString × JsString) (ps : List (JsString × JsString))
    → is_empty (to_string (p ∷ ps)) ≡ false
unfolding to_string pair_text
to_string-nonempty (k, v) [] = nonempty_append (form_text k) (form_text v) b'='
to_string-nonempty p (q ∷ ps) = nonempty_append (pair_text p) (to_string (q ∷ ps)) b'&'

pub read_query-to_string :
    (ps : List (JsString × JsString)) → All IsPair ps → read_query (to_string ps) ≡ ps
unfolding read_query to_string
read_query-to_string [] h = refl
read_query-to_string (p ∷ ps) (k, h) =
    read_nonempty (to_string (p ∷ ps)) (to_string-nonempty p ps) ∙ split_pairs p ps k h

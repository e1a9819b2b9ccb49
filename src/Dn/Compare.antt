-- ===== src/Dn/Compare.antt =====
-- `sameDn` and `rdnValue` of web/src/lib/utils.ts. `toLowerCase` is an argument.
use ldapwarden.Prelude.{
  ◌==◌, if◌then◌else◌, split_on, cut_at, trim_start, trim_end, trim, JsString, ◌===◌, is_empty, any,
  Bool, false, ◌||◌, List, [], ◌∷◌, ◌++◌, map,
}

-- `part.replace(/\s*=\s*/, '=')`: the first `=`, with the white space around it.
unfoldable pub tighten : JsString → JsString
tighten part =
    let sides = cut_at b'=' part in
    if any (λ c. c == b'=') part then trim_end sides.0 ++ (b'=' ∷ trim_start sides.1) else part

abbrev join_commas : List JsString → JsString
join_commas [] = []
join_commas (s ∷ []) = s
join_commas (s ∷ t ∷ rest) = s ++ (b',' ∷ join_commas (t ∷ rest))

module _ (lower : JsString → JsString) where
  unfoldable pub normalise : JsString → JsString
  normalise dn = lower (join_commas (map (λ part. tighten (trim part)) (split_on b',' dn)))

  -- A DN that is undefined is empty here: `!a` holds of both.
  unfoldable pub same_dn : JsString → JsString → Bool
  same_dn a b = if is_empty a || is_empty b then false else normalise a === normalise b

-- `dn.split(',')[0]`, and what follows its first `=`.
unfoldable pub rdn_value : JsString → JsString
rdn_value dn =
    let first = (cut_at b',' dn).0 in
    if any (λ c. c == b'=') first then trim (cut_at b'=' first).1 else dn

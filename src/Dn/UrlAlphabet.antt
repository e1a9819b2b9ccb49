-- ===== src/Dn/UrlAlphabet.antt =====
-- The two characters that `encodeDN` and `decodeDN` exchange, and the padding that one drops.
use ldapwarden.Prelude.{JsString, All, ℕ, ◌≤◌, ◌≡◌, refl, ap₂, ◌⊎◌, List, [], ◌∷◌, ◌++◌, arith}
use ldapwarden.Dn.Base64.{digit}
use ldapwarden.Dn.Codec.{replace_all, drop_trailing}
use ldapwarden.Dn.Encoding.{tail_pad, IsDigit}

abbrev pub to_url : JsString → JsString
to_url s = replace_all b'/' b'_' (replace_all b'+' b'-' s)

abbrev pub from_url : JsString → JsString
from_url s = replace_all b'_' b'/' (replace_all b'-' b'+' s)

-- A character that a URL path segment takes as it is.
abbrev pub IsUrlSafe : ℕ → Type 0
IsUrlSafe c =
    ((b'A' ≤ c) × (c ≤ b'Z'))
    ⊎ ((b'a' ≤ c) × (c ≤ b'z'))
    ⊎ ((b'0' ≤ c) × (c ≤ b'9'))
    ⊎ (c ≡ b'-')
    ⊎ (c ≡ b'_')

pub to_url-IsUrlSafe : (s : JsString) → All IsDigit s → All IsUrlSafe (to_url s)
unfolding digit
to_url-IsUrlSafe [] h = tt
to_url-IsUrlSafe (c ∷ s) ((v, lt, e), h) = (ground arith, to_url-IsUrlSafe s h)

pub from_url-to_url : (s : JsString) → All IsDigit s → from_url (to_url s) ≡ s
unfolding digit
from_url-to_url [] h = refl
from_url-to_url (c ∷ s) ((v, lt, e), h) = ap₂ ◌∷◌ (ground arith) (from_url-to_url s h)

abbrev pub IsEquals : ℕ → Type 0
IsEquals c = c ≡ b'='

pub drop_trailing-All : (s : JsString) → All IsEquals s → drop_trailing b'=' s ≡ []
unfolding drop_trailing
drop_trailing-All [] h = refl
drop_trailing-All (c ∷ s) (e, h) = ground (arith, drop_trailing-All s h)

pub drop_trailing-append :
    (s t : JsString) → All IsUrlSafe s → All IsEquals t → drop_trailing b'=' (s ++ t) ≡ s
unfolding drop_trailing
drop_trailing-append [] t h k = drop_trailing-All t k
drop_trailing-append (c ∷ s) t (p, h) k = ground (arith, drop_trailing-append s t h k)

pub to_url-append : (s t : JsString) → to_url (s ++ t) ≡ to_url s ++ to_url t
to_url-append [] t = refl
to_url-append (c ∷ s) t = rw (to_url-append s t)

pub tail_pad-IsEquals : (s : List ℕ) → All IsEquals (to_url (tail_pad s))
unfolding tail_pad
tail_pad-IsEquals [] = tt
tail_pad-IsEquals (a ∷ []) = (refl, (refl, tt))
tail_pad-IsEquals (a ∷ b ∷ []) = (refl, tt)
tail_pad-IsEquals (a ∷ b ∷ c ∷ r) = tail_pad-IsEquals r

-- ===== src/DirectoryChanges.antt =====
-- The changes in the directory's own log: web/src/components/directory-changes.tsx.
use ldapwarden.Prelude.{
  leb, ◌==◌, if◌then◌else◌, or_default, split_on, split_on-append, cut_at, cut_at-append, JsString,
  text, is_empty, unique_from, length, any, All, All-append, ℕ, ◌≡◌, refl, ap, subst, ◌≢◌, true,
  Option, List, [], ◌∷◌, ◌++◌, arith,
}
use ldapwarden.Api.Query.{ParamValue, number}
use ldapwarden.ListSearch.Validate.{default_page_size}
use ldapwarden.AuditPage.{AuditSearch, filter_value, join_commas}
use ldapwarden.Ui.Paging.{slice}

abbrev first_text : List JsString → JsString
first_text [] = []
first_text (s ∷ rest) = s

-- `first.slice(eq + 1)` where there is an equals sign, and otherwise `first || '—'`.
unfoldable pub short_name : JsString → JsString
short_name dn =
    let first = first_text (split_on b',' dn) in
    if any (λ c. c == b'=') first
    then (cut_at b'=' first).1
    else if is_empty first
    then text "—"
    else first

pub data ChangeType : Type 0 where
  rename deletion other_change : ChangeType

-- From the type of a change, its new RDN and the attributes that it touches. `shown` prints a
-- number.
unfoldable pub change_summary :
    (ℕ → JsString) → ChangeType → Option JsString → List JsString → JsString
change_summary shown rename new_rdn touched = text "renamed to " ++ or_default new_rdn (text "?")
change_summary shown deletion new_rdn touched = text "entry deleted"
change_summary shown other_change new_rdn touched =
    let attributes = unique_from [] touched in
    if is_empty attributes
    then text "—"
    else if leb (length attributes) 3
    then join_commas attributes
    else shown (length attributes) ++ text " attributes: " ++ join_commas attributes

-- What the list asks for.
unfoldable pub change_params : AuditSearch → List (JsString × ParamValue)
change_params s =
    let part = slice (or_default s.page 1) (or_default s.size default_page_size) in
    (text "origin", ParamValue.string (or_default s.origin (text "external")))
    ∷ (text "type", filter_value s.type)
    ∷ (text "search", filter_value s.q)
    ∷ (text "from", filter_value s.from)
    ∷ (text "to", filter_value s.to)
    ∷ (text "limit", number part.limit)
    ∷ (text "offset", number part.offset)
    ∷ []

any_after : (c : ℕ) (s t : JsString) → any (λ d. d == c) (s ++ (c ∷ t)) ≡ true
any_after c [] t = let e : (c == c) ≡ true = ground arith in rw e refl
any_after c (d ∷ s) t = ground (arith, any_after c s t)

-- The short name of an entry whose first RDN is a type and a value without a comma is the value.
pub short_name_lem :
    (type value rest : JsString)
    → All (λ c. c ≢ b',') type
    → All (λ c. c ≢ b'=') type
    → All (λ c. c ≢ b',') value
    → short_name (type ++ (b'=' ∷ (value ++ (b',' ∷ rest)))) ≡ value
unfolding short_name
short_name_lem type value rest a b d =
    let first : JsString = type ++ (b'=' ∷ value) in
    let whole : first ++ (b',' ∷ rest) ≡ type ++ (b'=' ∷ (value ++ (b',' ∷ rest))) = joined type in
    let plain : All (λ c. c ≢ b',') first =
      All-append (λ c. c ≢ b',') type (b'=' ∷ value) a ((λ e. ground arith), d) in
    subst (λ s. short_name s ≡ value) whole
      (rw
        (
          split_on-append b',' first rest plain,
          any_after b'=' type value,
          cut_at-append b'=' type value b,
        )
        refl)
  where
    joined :
        (s : JsString)
        → (s ++ (b'=' ∷ value)) ++ (b',' ∷ rest) ≡ s ++ (b'=' ∷ (value ++ (b',' ∷ rest)))
    joined [] = refl
    joined (c ∷ s) = ap (◌∷◌ c) (joined s)

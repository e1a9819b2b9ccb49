-- ===== src/Display/PageTitle.antt =====
-- The title of a page: pageTitle and rdnValue of web/src/lib/page-title.ts. `decode_uri` is
-- decodeURIComponent, and `none` where that throws.
pub mod Laws
use ldapwarden.Prelude.{
  ◌==◌, if◌then◌else◌, or_default, ◌>>=◌, split_on, JsString, text, look_up, is_empty, filter, ℕ,
  Bool, true, false, not, ◌&&◌, ◌||◌, Option, none, some, List, [], ◌∷◌, ◌++◌,
}
use ldapwarden.Dn.Codec.{decode_dn}

abbrev pub app_name : JsString
app_name = text "LDAP Warden"

-- `SECTIONS` and `SUBPAGES`, of the segments that the routes have.
abbrev pub section_titles : List (JsString × JsString)
section_titles =
    (text "users", text "Users")
    ∷ (text "groups", text "Groups")
    ∷ (text "sudo-roles", text "Sudo Roles")
    ∷ (text "netgroups", text "Netgroups")
    ∷ (text "password-policies", text "Password Policies")
    ∷ (text "audit-logs", text "Audit Logs")
    ∷ (text "admin", text "Administration")
    ∷ (text "login", text "Sign in")
    ∷ (text "reset-password", text "Reset password")
    ∷ []

abbrev pub subpage_titles : List (JsString × JsString)
subpage_titles = (text "new", text "New") ∷ (text "import", text "Import") ∷ []

-- The characters that `.` does not match.
abbrev pub is_line_end : ℕ → Bool
is_line_end c = c == 10 || (c == 13 || (c == 8232 || c == 8233))

-- `^[^=,]+=`: what follows it.
unfoldable pub after_type : Bool → JsString → Option JsString
after_type started [] = none
after_type started (c ∷ s) =
    let rest = after_type true s in
    if c == b'=' then (if started then some s else none) else if c == b',' then none else rest

-- `(?:\\.|[^,\\])+`, as long as it goes.
unfoldable pub take_value : JsString → JsString
take_value [] = []
take_value (c ∷ []) = if c == b'\\' || c == b',' then [] else c ∷ []
take_value (c ∷ d ∷ s) =
    let escaped = take_value s in
    let rest = take_value (d ∷ s) in
    if c == b'\\'
    then if is_line_end d then [] else c ∷ d ∷ escaped
    else if c == b','
    then []
    else c ∷ rest

-- `replace(/\\(.)/g, '$1')`.
unfoldable pub unescape : JsString → JsString
unescape [] = []
unescape (c ∷ []) = c ∷ []
unescape (c ∷ d ∷ s) =
    let escaped = unescape s in
    let rest = unescape (d ∷ s) in
    if c == b'\\' && not (is_line_end d) then d ∷ escaped else c ∷ rest

-- The value of the first RDN of a DN: the match has at least one character.
unfoldable pub first_rdn_value : JsString → Option JsString
unfolding after_type take_value unescape
first_rdn_value dn = do
  rest ← after_type false dn
  if is_empty (take_value rest) then none else some (unescape (take_value rest))

module _ (decode_uri : JsString → Option JsString) where
  -- `rdnValue` of this file, of an encoded DN.
  unfoldable pub encoded_rdn_value : JsString → Option JsString
  encoded_rdn_value encoded = do
    plain ← decode_uri encoded
    dn ← decode_dn plain
    first_rdn_value dn

  -- `SUBPAGES[sub] ?? rdnValue(sub)`.
  unfoldable pub entry_name : JsString → Option JsString
  unfolding encoded_rdn_value
  entry_name sub = elim (look_up sub subpage_titles) [
    | some title ↦ some title
    | none ↦ encoded_rdn_value sub
  ]

  unfoldable pub named_title : JsString → JsString → JsString
  unfolding entry_name
  named_title section sub =
      let own = section ++ text " · " ++ app_name in
      let name = or_default (entry_name sub) [] in
      if is_empty name then own else name ++ text " · " ++ own

  unfoldable pub segments_title : List JsString → JsString
  unfolding named_title
  segments_title [] = app_name
  segments_title (seg ∷ segments) = elim (look_up seg section_titles) [
    | none ↦ app_name
    | some section ↦ elim segments [
      | [] ↦ section ++ text " · " ++ app_name
      | sub ∷ rest ↦ named_title section sub
    ]
  ]

  unfoldable pub page_title : JsString → JsString
  unfolding segments_title
  page_title pathname = segments_title (filter (λ s. not (is_empty s)) (split_on b'/' pathname))

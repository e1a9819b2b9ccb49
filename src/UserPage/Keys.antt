-- ===== src/UserPage/Keys.antt =====
-- The SSH keys of an account and the origin of its sudo rules: parseKeyInfo, handleAddKey and
-- GrantOrigin of web/src/routes/users/$dn.tsx.
pub mod Laws
use ldapwarden.Prelude.{
  if◌then◌else◌, split_on, trim, JsString, text, ◌===◌, is_empty, starts_with, take, drop, Option,
  none, some, List, [], ◌∷◌, ◌++◌,
}

pub record KeyInfo : Type 0 where
  pub type : JsString
  pub comment : JsString
  pub fingerprint : JsString

-- `parts.join(' ')`.
abbrev pub join_spaces : List JsString → JsString
join_spaces [] = []
join_spaces (s ∷ []) = s
join_spaces (s ∷ t ∷ parts) = s ++ (b' ' ∷ join_spaces (t ∷ parts))

abbrev first_part : List JsString → JsString
first_part [] = text "unknown"
first_part (s ∷ parts) = if is_empty s then text "unknown" else s

abbrev comment_part : List JsString → JsString
comment_part (s ∷ t ∷ u ∷ parts) = join_spaces (u ∷ parts)
comment_part _ = []

abbrev fingerprint_part : List JsString → JsString
fingerprint_part (s ∷ t ∷ parts) = if is_empty t then [] else take 20 t ++ text "..."
fingerprint_part _ = []

unfoldable pub parse_key_info : JsString → KeyInfo
parse_key_info key = record {
  type = first_part (split_on b' ' key);
  comment = comment_part (split_on b' ' key);
  fingerprint = fingerprint_part (split_on b' ' key);
}

-- The key that handleAddKey sends, if any.
unfoldable pub added_key : JsString → Option JsString
added_key new_key = if is_empty (trim new_key) then none else some (trim new_key)

-- `GrantOrigin`: nothing for a rule that names the account, or else a label and its explanation.
unfoldable pub grant_origin : JsString → JsString → Option (JsString × JsString)
grant_origin token uid =
    if token === uid
    then none
    else if token === text "ALL"
    then some (text "everyone", text "This rule applies to every user (sudoUser: ALL).")
    else if starts_with (text "%") token
    then some (
      text "via group " ++ drop 1 token,
      text "Granted through a group. Remove the user from that group to take it away.",
    )
    else if starts_with (text "+") token
    then some (
      text "via netgroup " ++ drop 1 token,
      text "Granted through a netgroup, possibly a nested one. Edit that netgroup to take it away.",
    )
    else some (text "via " ++ token, text "Granted through this sudoUser value.")

-- ===== src/UserPage/Security.antt =====
-- The security tab: SecurityTab of web/src/routes/users/$dn.tsx.
pub mod Laws
use mathlib.Core.Option
use ldapwarden.Prelude.{
  leb, ◌==◌, if◌then◌else◌, or_default, cut_at, JsString, text, ◌===◌, is_empty, any, all, ℕ, ◌-◌,
  Bool, not, ◌&&◌, ◌||◌, Option, none, some, List, [], ◌∷◌, ◌++◌, map,
}

-- `/^[a-zA-Z0-9._-]+$/`.
abbrev pub is_uid_char : ℕ → Bool
is_uid_char c =
    (leb b'a' c && leb c b'z')
    || (leb b'A' c && leb c b'Z')
    || (leb b'0' c && leb c b'9')
    || any (λ k. k == c) (b'.' ∷ b'_' ∷ b'-' ∷ [])

unfoldable pub uid_pattern : JsString → Bool
uid_pattern s = not (is_empty s) && all is_uid_char s

-- `newUidValid`, and whether the button of the dialog is enabled.
unfoldable pub new_uid_valid : JsString → JsString → Bool
unfolding uid_pattern
new_uid_valid uid new_uid = uid_pattern new_uid && not (new_uid === uid)

unfoldable pub can_rename : JsString → JsString → JsString → Bool → Bool
unfolding new_uid_valid
can_rename uid new_uid confirm_uid pending =
    not (not (new_uid_valid uid new_uid) || not (confirm_uid === uid) || pending)

-- The two messages under the field.
unfoldable pub new_uid_messages : JsString → JsString → List JsString
unfolding uid_pattern
new_uid_messages uid new_uid =
    (if not (is_empty new_uid) && not (uid_pattern new_uid)
      then text "Only letters, digits, '.', '_' or '-' are allowed." ∷ []
      else [])
    ++ (if not (is_empty new_uid) && new_uid === uid
        then text "This is already the current username." ∷ []
        else [])

-- The password that handlePasswordChange submits, if any, and what is shown of the two fields.
unfoldable pub submitted_password : JsString → JsString → Option JsString
submitted_password password confirm =
    if not (is_empty password) && password === confirm then some password else none

unfoldable pub passwords_match : JsString → JsString → Bool
passwords_match password confirm =
    not (is_empty password) && (not (is_empty confirm) && password === confirm)

unfoldable pub passwords_dont_match : JsString → JsString → Bool
passwords_dont_match password confirm =
    not (is_empty password) && (not (is_empty confirm) && not (password === confirm))

-- `extractCN`: what stands between `cn=`, in any case, and the first comma, or else the DN.
unfoldable pub extract_cn : JsString → JsString
extract_cn (c ∷ n ∷ e ∷ rest) =
    if ((c == b'c' || c == b'C') && (n == b'n' || n == b'N') && e == b'=')
      && not (is_empty (cut_at b',' rest).0)
    then (cut_at b',' rest).0
    else c ∷ n ∷ e ∷ rest
extract_cn dn = dn

pub record Policy : Type 0 where
  pub dn : JsString
  pub cn : JsString
  pub description : Option JsString

pub record SelectOption : Type 0 where
  pub value : JsString
  pub label : JsString

unfoldable pub policy_option : Policy → SelectOption
policy_option policy = record {
  value = policy.dn;
  label = policy.cn ++ elim policy.description [
    | none ↦ []
    | some d ↦ if is_empty d then [] else text " - " ++ d
  ];
}

-- The option for no policy of the entry's own. An empty DN counts as none.
unfoldable pub default_option : Option JsString → SelectOption
unfolding extract_cn
default_option none = record { value = []; label = text "Default (none)" }
default_option (some dn) = record {
  value = [];
  label =
      if is_empty dn
      then text "Default (none)"
      else text "Default (" ++ (extract_cn dn ++ text ")");
}

-- The option for a policy of the entry that is not listed.
unfoldable pub unlisted_option : Option JsString → List Policy → List SelectOption
unfolding extract_cn
unlisted_option none listed = []
unlisted_option (some applied) listed =
    if not (is_empty applied) && not (any (λ policy. policy.dn === applied) listed)
    then record { value = applied; label = extract_cn applied } ∷ []
    else []

-- `policyOptions`, for the policies listed, `user.pwdPolicySubentry` and `user.lockout.policyDn`.
unfoldable pub policy_options : List Policy → Option JsString → Option JsString → List SelectOption
unfolding default_option policy_option unlisted_option
policy_options listed applied lockout_policy =
    default_option (if is_empty (or_default applied []) then lockout_policy else none)
    ∷ (map policy_option listed ++ unlisted_option applied listed)

-- `user.pwdPolicySubentry || ''`.
unfoldable pub server_policy : Option JsString → JsString
server_policy applied = or_default applied []

-- `policyChoice` and `lastServerPolicy`.
pub record PolicyChoice : Type 0 where
  pub choice : JsString
  pub last_server : JsString

-- A render with a policy of the server, and a choice in the select.
unfoldable pub render_policy : JsString → PolicyChoice → PolicyChoice
render_policy server s =
    if server === s.last_server then s else record { choice = server; last_server = server }

unfoldable pub choose_policy : JsString → PolicyChoice → PolicyChoice
choose_policy value s = record s { choice = value }

-- `policyDirty`, and the data of the request that the button makes.
unfoldable pub policy_dirty : JsString → PolicyChoice → Bool
policy_dirty server s = not (s.choice === server)

unfoldable pub policies_not_shown : ℕ → ℕ → ℕ
policies_not_shown total listed = total - listed

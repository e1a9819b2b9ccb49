-- ===== src/AuditPage.antt =====
-- The audit log: web/src/routes/audit-logs.tsx, with the options of
-- web/src/lib/directory-changes.ts. A row of options is its value and its label.
mod Tests
pub mod Events
use ldapwarden.Prelude.{
  leb, ◌==◌, if◌then◌else◌, Bool-cases, or_default, JsString, text, ◌===◌, ===_refl, is_empty,
  includes, length, any, ℕ, ◌≡◌, refl, ap, inl, inr, Bool, true, false, not, ◌&&◌, ◌||◌, Option,
  none, some, List, [], ◌∷◌, ◌++◌, map, arith,
}
use ldapwarden.Values.{JsNumber, Value, string, Items, Fields, get}
use ldapwarden.Api.Query.{ParamValue, undefined, number, is_given, value_text, set, audit_pairs}
use ldapwarden.ListSearch.Validate.{as_string, as_page, as_size, default_page_size}
use ldapwarden.Ui.Paging.{slice}

abbrev pub Options : Type 0
Options = List (JsString × JsString)

abbrev pub resource_type_options : Options
resource_type_options =
    (text "", text "All resource types")
    ∷ (text "user", text "User")
    ∷ (text "group", text "Group")
    ∷ (text "sudorole", text "Sudo role")
    ∷ (text "pwdpolicy", text "Password policy")
    ∷ (text "netgroup", text "Netgroup")
    ∷ (text "schema", text "Schema")
    ∷ (text "directory", text "Directory")
    ∷ []

abbrev pub action_options : Options
action_options =
    (text "", text "All actions")
    ∷ (text "login", text "login")
    ∷ (text "login.failed", text "login.failed")
    ∷ (text "logout", text "logout")
    ∷ (text "user.create", text "user.create")
    ∷ (text "user.update", text "user.update")
    ∷ (text "user.delete", text "user.delete")
    ∷ (text "user.rename", text "user.rename")
    ∷ (text "user.lock", text "user.lock")
    ∷ (text "user.unlock", text "user.unlock")
    ∷ (text "user.lockout", text "user.lockout")
    ∷ (text "group.create", text "group.create")
    ∷ (text "group.update", text "group.update")
    ∷ (text "group.delete", text "group.delete")
    ∷ (text "group.rename", text "group.rename")
    ∷ (text "group.member.add", text "group.member.add")
    ∷ (text "group.member.remove", text "group.member.remove")
    ∷ (text "sudorole.create", text "sudorole.create")
    ∷ (text "sudorole.update", text "sudorole.update")
    ∷ (text "sudorole.delete", text "sudorole.delete")
    ∷ (text "sudorole.user.add", text "sudorole.user.add")
    ∷ (text "sudorole.user.remove", text "sudorole.user.remove")
    ∷ (text "sudorole.group.add", text "sudorole.group.add")
    ∷ (text "sudorole.group.remove", text "sudorole.group.remove")
    ∷ (text "netgroup.create", text "netgroup.create")
    ∷ (text "netgroup.update", text "netgroup.update")
    ∷ (text "netgroup.delete", text "netgroup.delete")
    ∷ (text "pwdpolicy.create", text "pwdpolicy.create")
    ∷ (text "pwdpolicy.update", text "pwdpolicy.update")
    ∷ (text "pwdpolicy.delete", text "pwdpolicy.delete")
    ∷ (text "schema.refresh", text "schema.refresh")
    ∷ (text "policy.selftest", text "policy.selftest")
    ∷ (text "directory.export", text "directory.export")
    ∷ []

abbrev pub origin_options : Options
origin_options =
    (text "external", text "Outside ldapwarden")
    ∷ (text "ldapwarden", text "Through ldapwarden")
    ∷ (text "policy", text "Password policy")
    ∷ (text "all", text "All writes")
    ∷ []

abbrev pub change_type_options : Options
change_type_options =
    (text "", text "All operations")
    ∷ (text "add", text "add")
    ∷ (text "modify", text "modify")
    ∷ (text "delete", text "delete")
    ∷ (text "modrdn", text "modrdn")
    ∷ []

-- `options.some((o) => o.value !== default && o.value === raw) ? raw : undefined`.
unfoldable pub as_option : JsString → Options → Value → Option JsString
as_option default options (string s) =
    if any (λ o. not (o.0 === default) && o.0 === s) options then some s else none
as_option default options _ = none

abbrev is_numeral : ℕ → Bool
is_numeral c = leb b'0' c && leb c b'9'

-- `^\d{4}-\d{2}-\d{2}$`: `#` stands for a digit.
abbrev has_shape : JsString → JsString → Bool
has_shape [] s = is_empty s
has_shape (p ∷ shape) [] = false
has_shape (p ∷ shape) (c ∷ s) = (if p == b'#' then is_numeral c else c == p) && has_shape shape s

unfoldable pub iso_day : JsString → Bool
iso_day s = has_shape (text "####-##-##") s

unfoldable pub as_day : Value → Option JsString
unfolding iso_day
as_day (string s) = if iso_day s then some s else none
as_day _ = none

pub record AuditSearch : Type 0 where
  -- Whether the log is the directory's.
  pub in_directory : Bool
  pub origin : Option JsString
  pub type : Option JsString
  pub actor : Option JsString
  pub resource_type : Option JsString
  pub action : Option JsString
  pub q : Option JsString
  pub from : Option JsString
  pub to : Option JsString
  pub page : Option ℕ
  pub size : Option ℕ

abbrev is_directory : Value → Bool
is_directory (string s) = s === text "directory"
is_directory _ = false

unfoldable pub validate_audit : (JsString → JsNumber) → (Items → JsString) → Fields → AuditSearch
unfolding as_option as_day
validate_audit parse shown raw = record {
  in_directory = is_directory (get (text "view") raw);
  origin = as_option (text "external") origin_options (get (text "origin") raw);
  type = as_option [] change_type_options (get (text "type") raw);
  actor = as_string (get (text "actor") raw);
  resource_type = as_option [] resource_type_options (get (text "resourceType") raw);
  action = as_option [] action_options (get (text "action") raw);
  q = as_string (get (text "q") raw);
  from = as_day (get (text "from") raw);
  to = as_day (get (text "to") raw);
  page = as_page parse shown (get (text "page") raw);
  size = as_size parse shown (get (text "size") raw);
}

-- `value || undefined`, of `search.key ?? ''`.
unfoldable pub filter_value : Option JsString → ParamValue
filter_value none = undefined
filter_value (some s) = if is_empty s then undefined else ParamValue.string s

-- `filters`, in the order of its keys.
unfoldable pub audit_filters : AuditSearch → List (JsString × ParamValue)
unfolding filter_value
audit_filters s =
    (text "actorUid", filter_value s.actor)
    ∷ (text "resourceType", filter_value s.resource_type)
    ∷ (text "action", filter_value s.action)
    ∷ (text "search", filter_value s.q)
    ∷ (text "from", filter_value s.from)
    ∷ (text "to", filter_value s.to)
    ∷ []

-- What the list asks for: `{ ...filters, limit, offset }`.
unfoldable pub audit_params : AuditSearch → List (JsString × ParamValue)
unfolding audit_filters
audit_params s =
    let part = slice (or_default s.page 1) (or_default s.size default_page_size) in
    audit_filters s ++ (text "limit", number part.limit) ∷ (text "offset", number part.offset) ∷ []

unfoldable pub has_filters : AuditSearch → Bool
has_filters s =
    let filled : Option JsString → Bool = λ o. not (is_empty (or_default o [])) in
    filled s.actor
    || (filled s.resource_type
        || (filled s.action || (filled s.from || (filled s.to || filled s.q))))

unfoldable pub clear_filters : AuditSearch → AuditSearch
clear_filters s = record s {
  actor = none;
  resource_type = none;
  action = none;
  q = none;
  from = none;
  to = none;
  page = none;
}

-- `actorOptions`, for the actor of the search, empty where there is none.
unfoldable pub actor_options : JsString → List JsString → Options
actor_options actor known =
    (text "", text "All actors")
    ∷ ((if not (is_empty actor) && not (includes actor known) then (actor, actor) ∷ [] else [])
        ++ map (λ uid. (uid, uid)) known)

-- `join(', ')`.
abbrev pub join_commas : List JsString → JsString
join_commas [] = []
join_commas (s ∷ []) = s
join_commas (s ∷ t ∷ rest) = s ++ text ", " ++ join_commas (t ∷ rest)

-- The preview of a row, from the names of the changed fields and of the other details.
unfoldable pub summarise : (ℕ → JsString) → List JsString → List JsString → JsString
summarise shown fields extras =
    if not (is_empty fields)
    then if leb (length fields) 3
      then join_commas fields
      else shown (length fields) ++ text " fields: " ++ join_commas fields
    else if is_empty extras
    then text "—"
    else join_commas extras

-- From `details.resourceName` and the DN.
unfoldable pub resource_label : Value → JsString → JsString
resource_label (string name) dn =
    if is_empty name then if is_empty dn then text "-" else dn else name
resource_label _ dn = if is_empty dn then text "-" else dn

audit_pairs-append :
    (xs ys : List (JsString × ParamValue)) (q : List (JsString × JsString))
    → audit_pairs (xs ++ ys) q ≡ audit_pairs ys (audit_pairs xs q)
unfolding audit_pairs
audit_pairs-append [] ys q = refl
audit_pairs-append ((k, v) ∷ xs) ys q =
    audit_pairs-append xs ys (if is_given v then set k (value_text v) q else q)

any_known :
    (actor : JsString) (known : List JsString)
    → any (λ (o : JsString × JsString). o.0 === actor) (map (λ uid. (uid, uid)) known)
      ≡ includes actor known
any_known actor [] = refl
any_known actor (k ∷ known) = ap (λ b. k === actor || b) (any_known actor known)

or_true : (b : Bool) → (b || true) ≡ true
or_true b = ground arith

-- The actor of a search is always among the options, whoever has acted lately.
pub actor_options-actor :
    (actor : JsString) (known : List JsString)
    → any (λ (o : JsString × JsString). o.0 === actor) (actor_options actor known) ≡ true
unfolding actor_options
actor_options-actor [] known = rw (===_refl []) refl
actor_options-actor (c ∷ actor) known =
    let listed = any_known (c ∷ actor) known in
    elim (Bool-cases (includes (c ∷ actor) known)) [
      | inl e ↦ rw (e, listed, e) (or_true ([] === (c ∷ actor)))
      | inr e ↦ rw (e, ===_refl (c ∷ actor)) (or_true ([] === (c ∷ actor)))
    ]

-- The query of the list is that of the export of the same view, with a limit and an offset added.
pub audit_params-audit_filters :
    (s : AuditSearch)
    → let part = slice (or_default s.page 1) (or_default s.size default_page_size) in
      audit_pairs (audit_params s) []
      ≡ audit_pairs
          ((text "limit", number part.limit) ∷ (text "offset", number part.offset) ∷ [])
          (audit_pairs (audit_filters s) [])
unfolding audit_params
audit_params-audit_filters s = audit_pairs-append (audit_filters s) _ []

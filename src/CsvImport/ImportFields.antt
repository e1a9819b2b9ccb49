-- ===== src/CsvImport/ImportFields.antt =====
-- The fields of the three imports: web/src/routes/users/import.tsx, groups/import.tsx and
-- netgroups/import.tsx. The sample values of the template are not part of a field here.
use ldapwarden.Prelude.{JsString, text, true, false, none, some, List, [], ◌∷◌}
use ldapwarden.Netgroup.TripleText.{netgroup_triple_text}
use ldapwarden.CsvImport.{ImportField, text_field, number_field, string_array}
use ldapwarden.UserPage.Security.{uid_pattern}

abbrev rdn_hint : JsString
rdn_hint = text "must contain only letters, digits, '.', '_' or '-'"

abbrev triple_hint : JsString
triple_hint = text "must be written “(host,user,domain)”, with both commas"

-- A field that is optional, with no pattern, of one text.
abbrev optional : JsString → JsString → List JsString → ImportField
optional key label aliases = record {
  key = key;
  label = label;
  type = text_field;
  required = false;
  aliases = aliases;
  pattern = none;
  pattern_hint = none;
}

abbrev required_number : JsString → JsString → List JsString → ImportField
required_number key label aliases = record (optional key label aliases) {
  type = number_field;
  required = true;
}

-- A field checked by `/^[a-zA-Z0-9._-]+$/`.
abbrev rdn : JsString → JsString → List JsString → ImportField
rdn key label aliases = record (optional key label aliases) {
  pattern = some uid_pattern;
  pattern_hint = some rdn_hint;
}

abbrev pub user_fields : List ImportField
user_fields =
    record (rdn (text "uid") (text "Username (uid)") (text "username" ∷ text "login" ∷ [])) {
      required = true;
    }
    ∷ record (optional (text "givenName") (text "First name")
        (text "firstname" ∷ text "first name" ∷ [])) { required = true }
    ∷ record (optional (text "sn") (text "Last name")
        (text "surname" ∷ text "lastname" ∷ text "last name" ∷ [])) { required = true }
    ∷ required_number (text "uidNumber") (text "UID number") (text "uidnumber" ∷ [])
    ∷ required_number (text "gidNumber") (text "GID number") (text "gidnumber" ∷ [])
    ∷ optional (text "cn") (text "Common name") []
    ∷ optional (text "displayName") (text "Display name") []
    ∷ optional (text "mail") (text "Email") (text "email" ∷ [])
    ∷ optional (text "telephoneNumber") (text "Phone") (text "phone" ∷ text "telephone" ∷ [])
    ∷ optional (text "title") (text "Title") []
    ∷ optional (text "departmentNumber") (text "Department") (text "department" ∷ [])
    ∷ optional (text "o") (text "Organization") (text "organization" ∷ text "org" ∷ [])
    ∷ optional (text "employeeType") (text "Employee type") []
    ∷ optional (text "description") (text "Description") []
    ∷ optional (text "loginShell") (text "Login shell") (text "shell" ∷ [])
    ∷ optional (text "homeDirectory") (text "Home directory") (text "home" ∷ [])
    ∷ optional (text "password") (text "Password") []
    ∷ record (optional (text "groups") (text "Groups (CNs)") []) { type = string_array }
    ∷ optional (text "expirationDate") (text "Expiration date")
        (text "expiration" ∷ text "expires" ∷ [])
    ∷ []

abbrev pub group_fields : List ImportField
group_fields =
    record (rdn (text "cn") (text "Name (cn)") (text "name" ∷ text "groupname" ∷ [])) {
      required = true;
    }
    ∷ required_number (text "gidNumber") (text "GID number") (text "gidnumber" ∷ text "gid" ∷ [])
    ∷ optional (text "description") (text "Description") []
    ∷ record (optional (text "memberUid") (text "Members (uids)")
        (text "members" ∷ text "memberuid" ∷ [])) { type = string_array }
    ∷ []

abbrev pub netgroup_fields : List ImportField
netgroup_fields =
    record (rdn (text "cn") (text "Name (cn)") (text "name" ∷ text "netgroup" ∷ [])) {
      required = true;
    }
    ∷ optional (text "description") (text "Description") []
    ∷ record (optional (text "triples") (text "Triples")
        (text "nisnetgrouptriple" ∷ text "triple" ∷ text "members" ∷ [])) {
          type = string_array;
          pattern = some netgroup_triple_text;
          pattern_hint = some triple_hint;
        }
    ∷ record (rdn (text "members") (text "Nested netgroups")
        (text "membernisnetgroup" ∷ text "nested" ∷ [])) { type = string_array }
    ∷ []

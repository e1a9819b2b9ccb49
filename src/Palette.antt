-- ===== src/Palette.antt =====
-- The command palette: web/src/components/command-palette.tsx. `lower` is toLowerCase.
pub mod Laws
pub mod States
use Prim.Native.Nat.{min}
use ldapwarden.Prelude.{
  ◌==◌, if◌then◌else◌, ◌>>=◌, JsString, text, is_empty, contains, unique_from, length, get_elem?,
  filter, ℕ, ◌+◌, ◌-◌, ◌%◌, Bool, Option, none, some, List, [], ◌∷◌, ◌++◌, map,
}
use ldapwarden.Dn.Codec.{encode_dn}
use ldapwarden.Session.Sections.{Section, SectionKey, SectionAction}

-- What is found of an entry: its DN, and the label and the hint of its row.
pub record Entry : Type 0 where
  pub dn : JsString
  pub label : JsString
  pub hint : Option JsString

-- The route that a command goes to, with the DN that it is given.
pub record Command : Type 0 where
  pub id : JsString
  pub label : JsString
  pub hint : Option JsString
  pub group : JsString
  pub to : JsString
  pub dn : Option JsString

-- The loop over the entries of one kind; `none` where encodeDN throws for one.
unfoldable pub entry_commands : JsString → JsString → JsString → List Entry → Option (List Command)
entry_commands kind group to [] = some []
entry_commands kind group to (e ∷ entries) = do
  encoded ← encode_dn e.dn
  rest ← entry_commands kind group to entries
  some (
      record {
        id = kind ++ (b':' ∷ e.dn);
        label = e.label;
        hint = e.hint;
        group = group;
        to = to;
        dn = some encoded;
      }
      ∷ rest)

-- The answers to the five searches.
pub record Answers : Type 0 where
  pub users : List Entry
  pub groups : List Entry
  pub netgroups : List Entry
  pub sudo_roles : List Entry
  pub policies : List Entry

unfoldable pub found_commands : Answers → Option (List Command)
unfolding entry_commands
found_commands a = do
  users ← entry_commands (text "user") (text "Users") (text "/users/$dn") a.users
  groups ← entry_commands (text "group") (text "Groups") (text "/groups/$dn") a.groups
  netgroups ←
      entry_commands (text "netgroup") (text "Netgroups") (text "/netgroups/$dn") a.netgroups
  roles ← entry_commands (text "sudo") (text "Sudo roles") (text "/sudo-roles/$dn") a.sudo_roles
  policies ←
      entry_commands (text "policy") (text "Password policies") (text "/password-policies/$dn")
        a.policies
  some (users ++ (groups ++ (netgroups ++ (roles ++ policies))))

abbrev key_name : SectionKey → JsString
key_name SectionKey.users = text "users"
key_name SectionKey.groups = text "groups"
key_name SectionKey.sudo = text "sudo"
key_name SectionKey.netgroups = text "netgroups"
key_name SectionKey.policies = text "policies"
key_name SectionKey.audit = text "audit"

abbrev goes : JsString → JsString → JsString → JsString → Command
goes id label group to = record {
  id = id;
  label = label;
  hint = none;
  group = group;
  to = to;
  dn = none;
}

abbrev action_command : JsString → SectionKey → Option SectionAction → List Command
action_command prefix key none = []
action_command prefix key (some a) = goes (prefix ++ key_name key) a.label (text "Create") a.to ∷ []

unfoldable pub section_commands : List Section → List Command
section_commands sections =
    map (λ s. goes (text "go:" ++ key_name s.key) s.label (text "Go to") s.to) sections

unfoldable pub create_commands : List Section → List Command
create_commands [] = []
create_commands (s ∷ sections) =
    action_command (text "new:") s.key s.create ++ create_commands sections

unfoldable pub import_commands : List Section → List Command
import_commands [] = []
import_commands (s ∷ sections) =
    action_command (text "import:") s.key s.import_csv ++ import_commands sections

-- `actions`.
unfoldable pub actions_of : List Section → Bool → List Command
unfolding section_commands create_commands import_commands
actions_of sections is_admin =
    goes (text "go:dashboard") (text "Dashboard") (text "Go to") (text "/")
    ∷ (section_commands sections
        ++ ((if is_admin
              then goes (text "go:admin") (text "Administration") (text "Go to") (text "/admin")
                ∷ []
              else [])
            ++ (create_commands sections ++ import_commands sections)))

-- `commands`, for a trimmed term.
unfoldable pub commands_of :
    (JsString → JsString) → JsString → Answers → List Section → Bool → Option (List Command)
unfolding found_commands actions_of
commands_of lower term answers sections is_admin =
    let actions = actions_of sections is_admin in
    let matching = filter (λ c. contains (lower term) (lower c.label)) actions in
    if is_empty term
    then some actions
    else do found ← found_commands answers; some (found ++ matching)

-- The highlighted row.
unfoldable pub bounded_index : ℕ → ℕ → ℕ
bounded_index count index = min index (count - 1)

unfoldable pub arrow_down : ℕ → ℕ → ℕ
arrow_down count index = if count == 0 then 0 else (index + 1) % count

-- `(i - 1 + commands.length) % commands.length`: the sum is not below 0, and i is 0 where there is
-- no row.
unfoldable pub arrow_up : ℕ → ℕ → ℕ
arrow_up count index = if count == 0 then 0 else (index + count - 1) % count

-- What Enter runs.
unfoldable pub chosen : List Command → ℕ → Option Command
unfolding bounded_index
chosen commands index = get_elem? commands (bounded_index (length commands) index)

unfoldable pub groups_in_order : List Command → List JsString
groups_in_order commands = unique_from [] (map (λ c. c.group) commands)

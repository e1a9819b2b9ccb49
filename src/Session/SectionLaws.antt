-- ===== src/Session/SectionLaws.antt =====
-- The list of sections against a table of modules and permissions, and against the route guard.
use ldapwarden.Prelude.{
  if◌then◌else◌, is_some, JsString, text, filter, All, ◌≡◌, refl, Bool, true, false, ◌&&◌, Option,
  none, some, List, [], ◌∷◌, map, arith,
}
use ldapwarden.Session.ServerInfo.{ServerInfo, Module, module_available}
use ldapwarden.Session.Sections.{
  Section, SectionKey, push_if, use_sections, users_section, groups_section, sudo_section,
  netgroups_section, policies_section, audit_section,
}

-- The areas in nav order, with what each asks for.
abbrev pub nav_order : List SectionKey
nav_order =
    SectionKey.users ∷ SectionKey.groups ∷ SectionKey.sudo ∷ SectionKey.netgroups
    ∷ SectionKey.policies ∷ SectionKey.audit ∷ []

abbrev pub module_of : SectionKey → Option Module
module_of SectionKey.users = some Module.users
module_of SectionKey.groups = some Module.groups
module_of SectionKey.sudo = some Module.sudo
module_of SectionKey.netgroups = some Module.netgroups
module_of SectionKey.policies = some Module.policies
module_of SectionKey.audit = none

abbrev pub read_permission : SectionKey → JsString
read_permission SectionKey.users = text "users:read"
read_permission SectionKey.groups = text "groups:read"
read_permission SectionKey.sudo = text "users:read"
read_permission SectionKey.netgroups = text "groups:read"
read_permission SectionKey.policies = text "settings:read"
read_permission SectionKey.audit = text "audit:read"

-- The permission to create; the audit log offers no creation.
abbrev pub write_permission : SectionKey → Option JsString
write_permission SectionKey.users = some (text "users:write")
write_permission SectionKey.groups = some (text "groups:write")
write_permission SectionKey.sudo = some (text "users:write")
write_permission SectionKey.netgroups = some (text "groups:write")
write_permission SectionKey.policies = some (text "settings:write")
write_permission SectionKey.audit = none

abbrev passes {ℓ} : {A : Type ℓ} → (A → Bool) → Bool → Option A → Bool
passes p d none = d
passes p d (some a) = p a

module _ (info : Option ServerInfo) (allowed : JsString → Bool) where
  abbrev pub is_reachable : SectionKey → Bool
  is_reachable k =
      passes (λ m. module_available m info) true (module_of k) && allowed (read_permission k)

  map-push_if :
      (b : Bool) (s : Section) (rest : List Section)
      → map (λ (t : Section). t.key) (push_if b s rest) ≡ (
          if b
          then s.key ∷ map (λ (t : Section). t.key) rest
          else map (λ (t : Section). t.key) rest)
  unfolding push_if
  map-push_if true s rest = refl
  map-push_if false s rest = refl

  -- The sections listed are those whose module is available and whose list the session may read,
  -- each once and in nav order.
  pub keys-use_sections :
      map (λ (s : Section). s.key) (use_sections info allowed) ≡ filter is_reachable nav_order
  unfolding use_sections users_section groups_section sudo_section netgroups_section
      policies_section audit_section
  keys-use_sections = simp map-push_if

  -- What a listed section offers and where it stands.
  pub record IsProper (s : Section) : Type 0 where
    pub reachable : is_reachable s.key ≡ true
    pub create : is_some s.create ≡ passes allowed false (write_permission s.key)

  users-IsProper : is_reachable SectionKey.users ≡ true → IsProper (users_section info allowed)
  unfolding users_section
  users-IsProper h = record { reachable = h; create = ground arith }

  groups-IsProper : is_reachable SectionKey.groups ≡ true → IsProper (groups_section info allowed)
  unfolding groups_section
  groups-IsProper h = record { reachable = h; create = ground arith }

  sudo-IsProper : is_reachable SectionKey.sudo ≡ true → IsProper (sudo_section info allowed)
  unfolding sudo_section
  sudo-IsProper h = record { reachable = h; create = ground arith }

  netgroups-IsProper :
      is_reachable SectionKey.netgroups ≡ true → IsProper (netgroups_section info allowed)
  unfolding netgroups_section
  netgroups-IsProper h = record { reachable = h; create = ground arith }

  policies-IsProper :
      is_reachable SectionKey.policies ≡ true → IsProper (policies_section info allowed)
  unfolding policies_section
  policies-IsProper h = record { reachable = h; create = ground arith }

  audit-IsProper : is_reachable SectionKey.audit ≡ true → IsProper (audit_section info allowed)
  unfolding audit_section
  audit-IsProper h = record { reachable = h; create = ground arith }

  All-push_if :
      (P : Section → Type 0) (b : Bool) (s : Section) (rest : List Section)
      → (b ≡ true → P s)
      → All P rest
      → All P (push_if b s rest)
  unfolding push_if
  All-push_if P true s rest f h = (f refl, h)
  All-push_if P false s rest f h = h

  -- A section is listed only to a session that may read it, and offers its create form exactly
  -- when the session may write there.
  pub use_sections-IsProper : All IsProper (use_sections info allowed)
  unfolding use_sections
  use_sections-IsProper = All-push_if IsProper _ _ _ users-IsProper (
      All-push_if IsProper _ _ _ groups-IsProper (
        All-push_if IsProper _ _ _ sudo-IsProper (
          All-push_if IsProper _ _ _ netgroups-IsProper (
            All-push_if IsProper _ _ _ policies-IsProper
              (All-push_if IsProper _ _ _ audit-IsProper tt)))))

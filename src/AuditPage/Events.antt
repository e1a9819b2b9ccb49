-- ===== src/AuditPage/Events.antt =====
-- What the operator changes on the audit page, web/src/routes/audit-logs.tsx: the filters and the
-- pages of the view in the URL, and the rows that are opened.
use ldapwarden.Prelude.{
  ltb, if◌then◌else◌, Bool-cases, or_default, JsString, text, ◌===◌, is_empty, includes, filter, ℕ,
  ◌-◌, ◌*◌, ◌≡◌, refl, subst, inl, inr, false, not, Option, none, some, List, [], ◌∷◌, ◌++◌, arith,
}
use ldapwarden.Api.Query.{number}
use ldapwarden.ListSearch.Validate.{default_page_size}
use ldapwarden.Ui.Paging.{slice}
use ldapwarden.AuditPage.{AuditSearch, audit_filters, audit_params, has_filters, clear_filters}

-- The log without anything set, of the app or of the directory.
unfoldable pub set_view : JsString → AuditSearch
set_view next = record {
  in_directory = next === text "directory";
  origin = none;
  type = none;
  actor = none;
  resource_type = none;
  action = none;
  q = none;
  from = none;
  to = none;
  page = none;
  size = none;
}

-- `value || undefined`.
abbrev pub or_undefined : JsString → Option JsString
or_undefined value = if is_empty value then none else some value

pub data Filter : Type 0 where
  by_actor by_resource_type by_action by_q by_from by_to : Filter

unfoldable pub set_filter : Filter → JsString → AuditSearch → AuditSearch
set_filter by_actor value s = record s { actor = or_undefined value; page = none }
set_filter by_resource_type value s = record s { resource_type = or_undefined value; page = none }
set_filter by_action value s = record s { action = or_undefined value; page = none }
set_filter by_q value s = record s { q = or_undefined value; page = none }
set_filter by_from value s = record s { from = or_undefined value; page = none }
set_filter by_to value s = record s { to = or_undefined value; page = none }

unfoldable pub turn_to : ℕ → AuditSearch → AuditSearch
turn_to page s = record s { page = if ltb 1 page then some page else none }

unfoldable pub set_size : ℕ → AuditSearch → AuditSearch
set_size size s = record s { size = some size; page = none }

-- `toggleExpanded`, on the set of the ids of the rows that are opened.
unfoldable pub toggle_expanded : JsString → List JsString → List JsString
toggle_expanded id prev =
    if includes id prev then filter (λ row. not (row === id)) prev else prev ++ id ∷ []

pub data AuditEvent : Type 0 where
  filters : Filter → JsString → AuditEvent
  turns_to sizes : ℕ → AuditEvent
  clears : AuditEvent

unfoldable pub audit_event : AuditEvent → AuditSearch → AuditSearch
unfolding set_filter turn_to set_size clear_filters
audit_event (filters filter value) s = set_filter filter value s
audit_event (turns_to page) s = turn_to page s
audit_event (sizes size) s = set_size size s
audit_event clears s = clear_filters s

-- The offset that the list is asked for after an event, for the size of a page after it.
abbrev pub offset_after : AuditEvent → ℕ → ℕ
offset_after (turns_to page) size = (page - 1) * size
offset_after _ size = 0

-- The parameters of a list whose first entry has the offset.
abbrev ListFrom : ℕ → AuditSearch → Type 0
ListFrom offset s =
    audit_params s
    ≡ audit_filters s
      ++ (text "limit", number (or_default s.size default_page_size))
        ∷ (text "offset", number offset)
        ∷ []

list_from :
    (s : AuditSearch) (page : ℕ)
    → or_default s.page 1 ≡ page
    → ListFrom ((page - 1) * or_default s.size default_page_size) s
unfolding audit_params slice
list_from s page h = rw h refl

first_page : (s : AuditSearch) → s.page ≡ none → ListFrom 0 s
first_page s h = subst (λ n. ListFrom n s) (omega arith) (list_from s 1 (rw h refl))

-- After any change of a filter or of the page size the list asks for its first page, and a turn to
-- a page asks for that page.
pub audit_params-audit_event :
    (e : AuditEvent) (s : AuditSearch)
    → let after = audit_event e s in
      audit_params after
      ≡ audit_filters after
        ++ (text "limit", number (or_default after.size default_page_size))
          ∷ (text "offset", number (offset_after e (or_default after.size default_page_size)))
          ∷ []
unfolding audit_event
audit_params-audit_event (filters by_actor value) s = first_page _ refl
audit_params-audit_event (filters by_resource_type value) s = first_page _ refl
audit_params-audit_event (filters by_action value) s = first_page _ refl
audit_params-audit_event (filters by_q value) s = first_page _ refl
audit_params-audit_event (filters by_from value) s = first_page _ refl
audit_params-audit_event (filters by_to value) s = first_page _ refl
audit_params-audit_event (sizes size) s = first_page _ refl
audit_params-audit_event clears s = first_page _ refl
audit_params-audit_event (turns_to page) s = elim (Bool-cases (ltb 1 page)) [
  | inl e ↦ list_from (turn_to page s) page (rw e refl)
  | inr e ↦
      subst (λ n. ListFrom n (turn_to page s)) (rw (first page e) (omega arith))
        (first_page (turn_to page s) (rw e refl))
]
  where
    first : (page : ℕ) → ltb 1 page ≡ false → page - 1 ≡ 0
    first page e = ground arith

-- The log that is changed to has no filter of the other.
pub has_filters-set_view : (next : JsString) → has_filters (set_view next) ≡ false
unfolding has_filters set_view
has_filters-set_view next = refl

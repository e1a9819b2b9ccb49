-- ===== src/UserPage/ClassTab.antt =====
-- The Samba and the shadow tab: a form for the attributes of an object class that the account may
-- not have yet (SambaTab and ShadowTab of web/src/routes/users/$dn.tsx).
pub mod Laws
use ldapwarden.Prelude.{
  if◌then◌else◌, JsString, text, Bool, true, false, not, ◌&&◌, ◌||◌, Option, none, some, List, [],
  ◌∷◌, ◌++◌,
}
use ldapwarden.FormSync.{FormState, render, mounted, is_dirty}
use ldapwarden.UserPage.Forms.{Form}

-- The form that handleAddSambaAccount fills in, for a printed uidNumber.
unfoldable pub samba_defaults : JsString → Form
samba_defaults uid_number =
    (text "sambaSID", text "S-1-5-21-0-0-0-" ++ uid_number)
    ∷ (text "sambaPrimaryGroupSID", [])
    ∷ (text "sambaAcctFlags", text "[U          ]")
    ∷ (text "sambaHomePath", [])
    ∷ (text "sambaHomeDrive", [])
    ∷ (text "sambaLogonScript", [])
    ∷ (text "sambaProfilePath", [])
    ∷ (text "sambaDomainName", [])
    ∷ []

module _ (json : Form → JsString) where
  -- The synced form, `isAddingObjectClass`, and of the entry last rendered `hasObjectClass` and its
  -- form.
  pub record ClassTab : Type 0 where
    pub sync : FormState json
    pub adding : Bool
    pub has_class : Bool
    pub copy : Form

  -- What `useSyncedForm` is given.
  unfoldable pub synced_copy : ClassTab → Option Form
  synced_copy s = if s.has_class && not s.adding then some s.copy else none

  unfoldable pub rendered : ClassTab → ClassTab
  unfolding synced_copy
  rendered s = record s { sync = render json (synced_copy s) s.sync }

  -- The first render: the form is that of the entry.
  unfoldable pub opened : Bool → Form → ClassTab
  unfolding rendered
  opened has_class copy =
      rendered
        (record { sync = mounted json copy; adding = false; has_class = has_class; copy = copy })

  pub data Event : Type 0 where
    entry_loaded : Bool → Form → Event
    add : Form → Event
    edits : Form → Event
    saved : Event
    discard : Event

  set_form : Form → ClassTab → ClassTab
  set_form form s = record s { sync = record s.sync { form = form } }

  -- The state that an event sets, before the render that follows. The button of `add` is there
  -- without the class only, and that of `discard` while nothing is being added.
  unfoldable pub handle : Event → ClassTab → ClassTab
  unfolding set_form
  handle (entry_loaded has_class copy) s = record s { has_class = has_class; copy = copy }
  handle (add defaults) s =
      if s.has_class || s.adding then s else record (set_form defaults s) { adding = true }
  handle (edits form) s = set_form form s
  handle saved s = record s { adding = false }
  handle discard s = if s.adding then s else set_form s.copy s

  unfoldable pub step : ClassTab → Event → ClassTab
  unfolding handle rendered
  step s e = rendered (handle e s)

  unfoldable pub run : ClassTab → List Event → ClassTab
  unfolding step
  run s [] = s
  run s (e ∷ es) = run (step s e) es

  -- The card with the button alone, in place of the form.
  unfoldable pub offers_class : ClassTab → Bool
  offers_class s = not s.has_class && not s.adding

  -- What the form's buttons take for edited: `isDirty || isAddingObjectClass`.
  unfoldable pub can_save : ClassTab → Bool
  can_save s = is_dirty json s.sync || s.adding

-- ===== src/FormSync.antt =====
-- `useSyncedForm` and `useCreationFormDirty` of web/src/lib/form-sync.ts.
pub mod Laws
pub mod Blocker
mod Tests
use ldapwarden.Prelude.{
  if◌then◌else◌, JsString, ◌===◌, Bool, true, false, not, ◌&&◌, Option, none, some, List, [], ◌∷◌,
}

-- `a === b` for a text or null.
unfoldable pub same_text : Option JsString → Option JsString → Bool
same_text none none = true
same_text (some s) (some t) = s === t
same_text _ _ = false

-- `json` is `JSON.stringify`.
module _ {T : Type 0} (json : T → JsString) where
  -- The form, the ref `lastSynced`, and the `serverForm` of the last render.
  pub record FormState : Type 0 where
    pub form : T
    pub last_synced : Option JsString
    pub server : Option T

  abbrev pub server_json : Option T → Option JsString
  server_json none = none
  server_json (some t) = some (json t)

  -- The body of the effect for a server copy.
  unfoldable pub sync : T → FormState → FormState
  sync server_form s =
      if same_text (some (json server_form)) s.last_synced
      then s
      else if not (same_text (some (json s.form)) s.last_synced)
          && not (json s.form === json server_form)
      then s
      else record s {
        form = if json s.form === json server_form then s.form else server_form;
        last_synced = some (json server_form);
      }

  -- A render with a server copy, or with none yet. The effect runs when its JSON has changed.
  unfoldable pub render : Option T → FormState → FormState
  render none s = record s { server = none }
  render (some t) s =
      if same_text (server_json s.server) (some (json t))
      then record s { server = some t }
      else sync t (record s { server = some t })

  pub data Event : Type 0 where
    renders : Option T → Event
    edits : T → Event

  unfoldable pub step : FormState → Event → FormState
  step s (renders server) = render server s
  step s (edits form) = record s { form = form }

  unfoldable pub run : FormState → List Event → FormState
  run s [] = s
  run s (e ∷ es) = run (step s e) es

  abbrev differs : T → Option T → Bool
  differs form none = false
  differs form (some t) = not (json form === json t)

  -- What the hook returns.
  unfoldable pub is_dirty : FormState → Bool
  is_dirty s = differs s.form s.server

  -- The form as it is mounted.
  abbrev pub mounted : T → FormState
  mounted form = record { form = form; last_synced = none; server = none }

  -- `useCreationFormDirty`, from the values of the first render.
  unfoldable pub is_creation_dirty : T → T → Bool → Bool
  is_creation_dirty initial current settled = not settled && not (json current === json initial)

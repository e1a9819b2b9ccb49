-- ===== src/UserPage/ClassTab/Laws.antt =====
-- Adding an object class, and an entry that gains it in the background.
use ldapwarden.Prelude.{
  Bool-cases, JsString, ◌===◌, ===_refl, All, ◌≡◌, refl, ◌∙◌, inl, inr, Bool, true, false, ◌||◌,
  Option, none, some, List, [], ◌∷◌, arith,
}
use ldapwarden.FormSync.{FormState, same_text, server_json, sync, render, is_dirty}
use ldapwarden.UserPage.Forms.{Form}
use ldapwarden.UserPage.ClassTab.{
  ClassTab, synced_copy, rendered, opened, Event, entry_loaded, add, edits, saved, discard, handle,
  step, run, can_save,
}

module _ (json : Form → JsString) where
  -- While the class is being added: a step is a load of the entry or an edit.
  abbrev pub IsFilling : Event json → Type 0
  IsFilling (entry_loaded has copy) = Unit
  IsFilling (edits form) = Unit
  IsFilling _ = ⊥

  -- The last form that was typed in, or the one that was there.
  abbrev pub last_form : List (Event json) → Form → Form
  last_form [] form = form
  last_form (edits form ∷ es) _ = last_form es form
  last_form (_ ∷ es) form = last_form es form

  -- A form that is being filled in, with no copy taken up.
  pub record IsAdding (form : Form) (s : ClassTab json) : Type 0 where
    pub is_adding : s.adding ≡ true
    pub has_form : s.sync.form ≡ form
    pub unsynced : s.sync.last_synced ≡ none

  synced_copy-adding : (s : ClassTab json) → s.adding ≡ true → synced_copy json s ≡ none
  unfolding synced_copy
  synced_copy-adding s h = elim (Bool-cases s.has_class) [
    | inl e ↦ rw (e, h) refl
    | inr e ↦ rw e refl
  ]

  rendered-IsAdding :
      (form : Form) (s : ClassTab json) → IsAdding form s → IsAdding form (rendered json s)
  unfolding rendered render
  rendered-IsAdding form s a =
      rw (synced_copy-adding s a.is_adding)
        (record { is_adding = a.is_adding; has_form = a.has_form; unsynced = a.unsynced })

  run-IsAdding :
      (s : ClassTab json) (es : List (Event json)) (form : Form)
      → All IsFilling es
      → IsAdding form s
      → IsAdding (last_form es form) (run json s es)
  unfolding run step handle
  run-IsAdding s [] form h a = a
  run-IsAdding s (entry_loaded has copy ∷ es) form (_, h) a =
      run-IsAdding (step json s (entry_loaded has copy)) es form h (
        rendered-IsAdding form (record s { has_class = has; copy = copy })
          (record { is_adding = a.is_adding; has_form = a.has_form; unsynced = a.unsynced }))
  run-IsAdding s (edits f ∷ es) form (_, h) a = run-IsAdding (step json s (edits f)) es f h (
      rendered-IsAdding f (record s { sync = record s.sync { form = f } })
        (record { is_adding = a.is_adding; has_form = refl; unsynced = a.unsynced }))
  run-IsAdding s (add f ∷ es) form (h, _) a = absurd h
  run-IsAdding s (saved ∷ es) form (h, _) a = absurd h
  run-IsAdding s (discard ∷ es) form (h, _) a = absurd h

  -- The state after "Add Samba Account" or "Add Shadow Account" on a tab opened without the class.
  abbrev pub add_pressed : Form → Form → ClassTab json
  add_pressed copy defaults = step json (opened json false copy) (add defaults)

  add_pressed-IsAdding : (copy defaults : Form) → IsAdding defaults (add_pressed copy defaults)
  unfolding step opened rendered handle synced_copy render
  add_pressed-IsAdding copy defaults = record { is_adding = refl; has_form = refl; unsynced = refl }

  -- With no copy taken up, a copy of the server changes no form; and no form is changed by itself.
  render-unsynced :
      (o : Option Form) (t : FormState json)
      → t.last_synced ≡ none
      → (render json o t).form ≡ t.form
  unfolding render sync same_text
  render-unsynced none t u = refl
  render-unsynced (some c) t u =
      elim (Bool-cases (same_text (server_json json t.server) (some (json c)))) [
        | inl e ↦ rw e refl
        | inr e ↦ elim (Bool-cases (json t.form === json c)) [
          | inl f ↦ rw (e, u, f) refl
          | inr f ↦ rw (e, u, f) refl
        ]
      ]

  render-own :
      (form : Form) (t : FormState json)
      → t.form ≡ form
      → ((render json (some form) t).form ≡ form) × ((render json (some form) t).server ≡ some form)
  unfolding render sync
  render-own form t h =
      let own : (json t.form === json form) ≡ true = rw h (===_refl (json form)) in
      elim (Bool-cases (same_text (server_json json t.server) (some (json form)))) [
        | inl e ↦ rw e (h, refl)
        | inr e ↦ elim (Bool-cases (same_text (some (json form)) t.last_synced)) [
          | inl f ↦ rw (e, f) (h, refl)
          | inr f ↦ elim (Bool-cases (same_text (some (json t.form)) t.last_synced)) [
            | inl g ↦ rw (e, f, g, own) (h, refl)
            | inr g ↦ rw (e, f, g, own) (h, refl)
          ]
        ]
      ]

  is_dirty_own :
      (form : Form) (t : FormState json)
      → t.form ≡ form
      → t.server ≡ some form
      → is_dirty json t ≡ false
  unfolding is_dirty
  is_dirty_own form t f s = rw (s, f, ===_refl (json form)) refl

  saved_form :
      (s : ClassTab json) → s.sync.last_synced ≡ none → (step json s saved).sync.form ≡ s.sync.form
  unfolding step handle rendered
  saved_form s u = render-unsynced (synced_copy json (record s { adding = false })) s.sync u

  -- The entry is loaded with the form that the tab shows, and nothing is being added.
  loaded_own :
      (form : Form) (s : ClassTab json)
      → s.adding ≡ false
      → s.sync.form ≡ form
      → ((step json s (entry_loaded true form)).sync.form ≡ form)
        × (can_save json (step json s (entry_loaded true form)) ≡ false)
  unfolding step handle rendered synced_copy can_save
  loaded_own form s a h =
      let (same, server) = render-own form s.sync h in
      rw a (same, rw (is_dirty_own form (render json (some form) s.sync) same server) refl)

  -- What is filled in for a class that is being added is never overwritten, whatever is loaded in
  -- the meantime, and can be saved. Once it has been saved and the entry comes back with it, the form
  -- is not edited any more.
  pub adding_saves :
      (copy defaults : Form) (es : List (Event json))
      → All IsFilling es
      → let filled = run json (add_pressed copy defaults) es in
        let form = last_form es defaults in
        (filled.sync.form ≡ form)
        × (can_save json filled ≡ true)
        × ((step json (step json filled saved) (entry_loaded true form)).sync.form ≡ form)
        × (can_save json (step json (step json filled saved) (entry_loaded true form)) ≡ false)
  unfolding can_save step handle rendered
  adding_saves copy defaults es h =
      let a =
        run-IsAdding (add_pressed copy defaults) es defaults h
          (add_pressed-IsAdding copy defaults) in
      let filled = run json (add_pressed copy defaults) es in
      let form = last_form es defaults in
      let after_save : (step json filled saved).sync.form ≡ form =
        saved_form filled a.unsynced ∙ a.has_form in
      let loaded = loaded_own form (step json filled saved) saved_adding after_save in
      (a.has_form, rw a.is_adding (or_true (is_dirty json filled.sync)), loaded.0, loaded.1)
    where
      or_true : (b : Bool) → (b || true) ≡ true
      or_true b = ground arith

      saved_adding : (step json (run json (add_pressed copy defaults) es) saved).adding ≡ false
      saved_adding = refl

  -- A tab opened for an account without the class does not take up the attributes of the class when
  -- the account gains it: it goes on showing the form of the account without it, as edited.
  pub late_class :
      (copy gained : Form)
      → (json copy === json gained) ≡ false
      → let late = step json (opened json false copy) (entry_loaded true gained) in
        (late.sync.form ≡ copy) × (can_save json late ≡ true)
  unfolding can_save step handle rendered opened synced_copy render sync same_text is_dirty
  late_class copy gained h = rw (h, h) (refl, refl)

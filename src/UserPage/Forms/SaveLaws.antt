-- ===== src/UserPage/Forms/SaveLaws.antt =====
-- Saving a form of an account (changedFields of web/src/routes/users/$dn.tsx) while others edit the
-- entry: what the server has of each field, for the copy that the tab was rendered with last
-- (useSyncedForm of web/src/lib/form-sync.ts).
use ldapwarden.Prelude.{
  if◌then◌else◌, Bool-cases, or_default, some-injective, JsString, ◌===◌, ===_refl, ===_eq, ===_iff,
  look_up, All, ◌≡◌, refl, sym, ap, ap₂, ◌∙◌, subst, ◌≢◌, inl, inr, true, false, Option, none, some,
  List, [], ◌∷◌,
}
use ldapwarden.FormSync.{same_text, FormState, Event, render, run}
use ldapwarden.FormSync.Laws.{IsEdited, IsOther, run-IsKept, render-IsKept, render-server}
use ldapwarden.UserPage.Forms.{Form, is_same, changed_fields, save_body}
use ldapwarden.UserPage.Forms.Laws.{Lacks, IsRecord, overwrite, changed-Lacks, look_up-Lacks}

-- What is sent of a field, by its value in the form and in the server's copy.
abbrev sent_value : Option JsString → Option JsString → Option JsString
sent_value none copy = none
sent_value (some v) copy = if is_same v copy then none else some v

look_up-changed_fields :
    (key : JsString) (form copy : Form)
    → IsRecord form
    → look_up key (changed_fields form copy) ≡ sent_value (look_up key form) (look_up key copy)
unfolding changed_fields look_up
look_up-changed_fields key [] copy r = refl
look_up-changed_fields key ((k, v) ∷ form) copy (l, r) =
    let rest = look_up-changed_fields key form copy r in
    elim (Bool-cases (k === key)) [
      | inl e ↦
          let same : k ≡ key = (===_iff k key).0 e in
          let lacks : Lacks key form = subst (λ j. Lacks j form) same l in
          let gone =
            look_up-Lacks key (changed_fields form copy) (changed-Lacks key form copy lacks) in
          elim (Bool-cases (is_same v (look_up k copy))) [
            | inl h ↦ rw (e, h, gone, ap (λ j. look_up j copy) (sym same), h) refl
            | inr h ↦ rw (h, e, ap (λ j. look_up j copy) (sym same), h) refl
          ]
      | inr e ↦ elim (Bool-cases (is_same v (look_up k copy))) [
        | inl h ↦ rw (e, h) rest
        | inr h ↦ rw (h, e) rest
      ]
    ]

look_up-overwrite :
    (key : JsString) (sent now : Form) {w : JsString}
    → look_up key now ≡ some w
    → look_up key (overwrite sent now) ≡ some (or_default (look_up key sent) w)
unfolding overwrite look_up
look_up-overwrite key sent [] h = cc
look_up-overwrite key sent ((k, v) ∷ now) h = elim (Bool-cases (k === key)) [
  | inl e ↦
      let same : k ≡ key = (===_iff k key).0 e in
      let value : v ≡ _ = some-injective (rw e at h) in
      rw e (ap₂ (λ j u. some (or_default (look_up j sent) u)) same value)
  | inr e ↦ rw e (look_up-overwrite key sent now (rw e at h))
]

is_same-eq : (v : JsString) (o : Option JsString) → is_same v o ≡ true → o ≡ some v
unfolding is_same
is_same-eq v none h = cc
is_same-eq v (some old) h = ap (λ (t : JsString). some t) (sym (===_eq v old h))

-- A field is sent exactly if the copy does not have its value.
sent_if_changed :
    (form copy : Form) (key : JsString) {v : JsString}
    → IsRecord form
    → look_up key form ≡ some v
    → (look_up key copy ≡ some v → look_up key (changed_fields form copy) ≡ none)
      × (look_up key copy ≢ some v → look_up key (changed_fields form copy) ≡ some v)
unfolding is_same
sent_if_changed form copy key {v} r f =
    let sent = look_up-changed_fields key form copy r in
    (
      λ c. rw (sent, f, c, ===_refl v) refl,
      λ c. elim (Bool-cases (is_same v (look_up key copy))) [
        | inl h ↦ absurd (c (is_same-eq v (look_up key copy) h))
        | inr h ↦ rw (sent, f, h) refl
      ],
    )

-- A save keeps what others have written meanwhile: of a field that the form leaves as the tab's copy
-- has it, the server keeps the value that it has by then, whatever that is, and of any other it has
-- the form's.
pub save_merges :
    (form copy now : Form) (key : JsString) {v w : JsString}
    → IsRecord form
    → look_up key form ≡ some v
    → look_up key now ≡ some w
    → (look_up key copy ≡ some v → look_up key (overwrite (changed_fields form copy) now) ≡ some w)
      × (look_up key copy ≢ some v
          → look_up key (overwrite (changed_fields form copy) now) ≡ some v)
save_merges form copy now key r f n =
    let (kept, sent) = sent_if_changed form copy key r f in
    let written = look_up-overwrite key (changed_fields form copy) now n in
    (λ c. rw (written, kept c) refl, λ c. rw (written, sent c) refl)

-- An edited form is not brought up to date: once its tab has been rendered with a newer copy, a
-- save sends, beside the edits, the old value of each field that has been changed elsewhere and not
-- in the form, and so undoes that change.
pub save_reverts :
    (json : Form → JsString) (s : FormState json) (base : Form) (es : List (Event json))
    (now : Form) (key : JsString) {v w : JsString}
    → s.last_synced ≡ some (json base)
    → (json s.form === json base) ≡ false
    → All (IsOther json s.form) es
    → (json s.form === json now) ≡ false
    → IsRecord s.form
    → look_up key base ≡ some v
    → look_up key s.form ≡ look_up key base
    → look_up key now ≡ some w
    → w ≢ v
    → (look_up key (save_body json (render json (some now) (run json s es))) ≡ some v)
      × (look_up key (overwrite (save_body json (render json (some now) (run json s es))) now)
          ≡ some v)
unfolding save_body same_text
save_reverts json s base es now key {v} synced edit others other r b same n ne =
    let edited : IsEdited json s = rw (synced, edit) refl in
    let (k, l) = run-IsKept json s es edited others in
    let kept = render-IsKept json (run json s es) now (rw (k, l) edited) (rw k other) in
    let form : (render json (some now) (run json s es)).form ≡ s.form = kept.0 ∙ k in
    let stale : look_up key now ≢ some v = λ e. ne (some-injective (sym n ∙ e)) in
    rw (render-server json now (run json s es), form)
      (
        (sent_if_changed s.form now key r (same ∙ b)).1 stale,
        (save_merges s.form now now key r (same ∙ b) n).1 stale,
      )

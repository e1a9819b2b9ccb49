-- ===== src/UserPage/Forms/Laws.antt =====
-- Lemmas on changedFields (web/src/routes/users/$dn.tsx) and what a server makes of it.
use mathlib.Core.Bool.{false≢true}
use ldapwarden.Prelude.{
  if◌then◌else◌, Bool-cases, or_default, JsString, ◌===◌, ===_refl, ===_eq, ===_iff, ===_comm,
  look_up, ◌≡◌, refl, sym, ap, ◌∙◌, subst, ◌≢◌, ◌↔◌, inl, inr, true, false, none, some, [], ◌∷◌,
}
use ldapwarden.FormSync.{FormState, is_dirty}
use ldapwarden.UserPage.Forms.{Form, is_same, changed_fields}

-- No field of a form has the key.
abbrev pub Lacks : JsString → Form → Type 0
Lacks key [] = Unit {0}
Lacks key ((k, v) ∷ form) = ((k === key) ≡ false) × Lacks key form

-- The keys of a form are different.
abbrev pub IsRecord : Form → Type 0
IsRecord [] = Unit {0}
IsRecord ((k, v) ∷ form) = Lacks k form × IsRecord form

-- Two forms have the same keys, in the same order.
abbrev pub SameKeys : Form → Form → Type 0
SameKeys [] [] = Unit {0}
SameKeys ((k, v) ∷ form) ((j, w) ∷ server) = (k ≡ j) × SameKeys form server
SameKeys [] (_ ∷ _) = ⊥
SameKeys (_ ∷ _) [] = ⊥

-- What the entry's fields are once the server has written those that it was sent.
unfoldable pub overwrite : Form → Form → Form
overwrite sent [] = []
overwrite sent ((key, value) ∷ server) =
    (key, or_default (look_up key sent) value) ∷ overwrite sent server

pub look_up-Lacks : (key : JsString) (form : Form) → Lacks key form → look_up key form ≡ none
unfolding look_up
look_up-Lacks key [] h = refl
look_up-Lacks key ((k, v) ∷ form) (h, hs) = rw h (look_up-Lacks key form hs)

pub changed-Lacks :
    (key : JsString) (form server : Form) → Lacks key form → Lacks key (changed_fields form server)
unfolding changed_fields
changed-Lacks key [] server h = tt
changed-Lacks key ((k, v) ∷ form) server (h, hs) =
    let rest = changed-Lacks key form server hs in
    elim (Bool-cases (is_same v (look_up k server))) [ inl e ↦ rw e rest | inr e ↦ rw e (h, rest) ]

-- A field of the server's copy that the form does not have is not looked at.
changed-skip :
    (key value : JsString) (form server : Form)
    → Lacks key form
    → changed_fields form ((key, value) ∷ server) ≡ changed_fields form server
unfolding changed_fields look_up
changed-skip key value [] server h = refl
changed-skip key value ((k, v) ∷ form) server (h, hs) =
    rw (===_comm key k ∙ h, changed-skip key value form server hs) refl

-- A field that is sent is not looked at for an entry that does not have it.
overwrite-skip :
    (key value : JsString) (sent server : Form)
    → Lacks key server
    → overwrite ((key, value) ∷ sent) server ≡ overwrite sent server
unfolding overwrite look_up
overwrite-skip key value sent [] h = refl
overwrite-skip key value sent ((k, w) ∷ server) (h, hs) =
    rw (===_comm key k ∙ h, overwrite-skip key value sent server hs) refl

SameKeys-Lacks :
    (key : JsString) (form server : Form) → SameKeys form server → Lacks key form → Lacks key server
SameKeys-Lacks key [] [] h l = tt
SameKeys-Lacks key ((k, v) ∷ form) ((j, w) ∷ server) (e, h) (l, ls) =
    (rw (← e) l, SameKeys-Lacks key form server h ls)
SameKeys-Lacks key [] (_ ∷ _) h l = absurd h
SameKeys-Lacks key (_ ∷ _) [] h l = absurd h

-- One field in front of the others, by whether it has changed.
changed-here :
    (key v w : JsString) (form server : Form)
    → Lacks key form
    → changed_fields ((key, v) ∷ form) ((key, w) ∷ server)
      ≡ (if v === w then changed_fields form server else (key, v) ∷ changed_fields form server)
unfolding changed_fields look_up
changed-here key v w form server h = rw (===_refl key, changed-skip key w form server h) refl

-- The field in front is written exactly if it is sent.
overwrite-here :
    (key v w : JsString) (sent server : Form)
    → Lacks key sent
    → Lacks key server
    → (overwrite sent ((key, w) ∷ server) ≡ (key, w) ∷ overwrite sent server)
      × (overwrite ((key, v) ∷ sent) ((key, w) ∷ server) ≡ (key, v) ∷ overwrite sent server)
unfolding overwrite look_up
overwrite-here key v w sent server h l =
    (rw (look_up-Lacks key sent h) refl, rw (===_refl key, overwrite-skip key v sent server l) refl)

same_key :
    (k v w : JsString) (form server : Form)
    → Lacks k form
    → Lacks k server
    → (overwrite (changed_fields form server) server ≡ form)
      × ((changed_fields form server ≡ []) ↔ (form ≡ server))
    → (overwrite (changed_fields ((k, v) ∷ form) ((k, w) ∷ server)) ((k, w) ∷ server)
        ≡ (k, v) ∷ form)
      × ((changed_fields ((k, v) ∷ form) ((k, w) ∷ server) ≡ [])
          ↔ (◌≡◌ {A = Form} ((k, v) ∷ form) ((k, w) ∷ server)))
same_key k v w form server l m (back, (to, from)) =
    let sent = changed_fields form server in
    let (kept, written) = overwrite-here k v w sent server (changed-Lacks k form server l) m in
    elim (Bool-cases (v === w)) [
      | inl e ↦
          let same : v ≡ w = ===_eq v w e in
          rw (changed-here k v w form server l, e, kept, back)
            (rw same refl, (λ q. rw (same, to q) refl, λ q. from (cc)))
      | inr e ↦
          rw (changed-here k v w form server l, e, written, back)
            (
              refl,
              (λ q. cc, λ q. let f : v ≡ w = cc in absurd (false≢true (sym e ∙ (===_iff v w).1 f))),
            )
    ]

-- A server that writes the fields it is sent has the form afterwards, and it is sent nothing exactly
-- if it has the form already.
pub overwrite-changed_fields :
    (form server : Form)
    → IsRecord form
    → SameKeys form server
    → (overwrite (changed_fields form server) server ≡ form)
      × ((changed_fields form server ≡ []) ↔ (form ≡ server))
unfolding overwrite changed_fields
overwrite-changed_fields [] [] r s = (refl, (λ e. refl, λ e. refl))
overwrite-changed_fields ((k, v) ∷ form) ((j, w) ∷ server) (l, r) (e, s) =
    subst
      (λ i.
        (overwrite (changed_fields ((k, v) ∷ form) ((i, w) ∷ server)) ((i, w) ∷ server)
          ≡ (k, v) ∷ form)
        × ((changed_fields ((k, v) ∷ form) ((i, w) ∷ server) ≡ [])
            ↔ (◌≡◌ {A = Form} ((k, v) ∷ form) ((i, w) ∷ server))))
      e
      (same_key k v w form server l (SameKeys-Lacks k form server s l)
        (overwrite-changed_fields form server r s))
overwrite-changed_fields [] (_ ∷ _) r s = absurd s
overwrite-changed_fields (_ ∷ _) [] r s = absurd s

-- With a JSON.stringify that tells the forms apart, a form is reported as edited exactly if saving it
-- sends something.
module _ (json : Form → JsString) where
  pub is_dirty-changed_fields :
      (s : FormState json) (server : Form)
      → ((a b : Form) → json a ≡ json b → a ≡ b)
      → s.server ≡ some server
      → IsRecord s.form
      → SameKeys s.form server
      → (is_dirty json s ≡ true) ↔ (changed_fields s.form server ≢ [])
  unfolding is_dirty
  is_dirty-changed_fields s server injective e r k =
      let (_, (to, from)) = overwrite-changed_fields s.form server r k in
      elim (Bool-cases (json s.form === json server)) [
        | inl f ↦
            rw (e, f) (λ q. cc, λ q. absurd (q (from (injective s.form server (===_eq _ _ f)))))
        | inr f ↦
            rw (e, f)
              (λ q n. absurd (false≢true (sym f ∙ (===_iff _ _).1 (ap json (to n)))), λ q. refl)
      ]

-- ===== src/FormSync/Laws.antt =====
-- When a form takes up the server's copy.
use ldapwarden.Prelude.{
  if◌then◌else◌, Bool-cases, JsString, ◌===◌, ===_refl, ===_iff, All, ◌≡◌, refl, sym, ap, ◌∙◌,
  subst, inl, inr, true, false, not, ◌&&◌, Option, none, some, List, [], ◌∷◌, arith,
}
use ldapwarden.FormSync.{
  same_text, FormState, server_json, sync, render, Event, renders, edits, step, run, is_dirty,
  mounted,
}

module _ {T : Type 0} (json : T → JsString) where
  -- The form is not the copy that was taken up last.
  abbrev pub IsEdited : FormState json → Type 0
  IsEdited s = same_text (some (json s.form)) s.last_synced ≡ false

  -- A render whose server copy is not the form.
  abbrev pub IsOther : T → Event json → Type 0
  IsOther form (renders none) = Unit
  IsOther form (renders (some t)) = (json form === json t) ≡ false
  IsOther form (edits t) = ⊥

  abbrev IsKept : FormState json → FormState json → Type 0
  IsKept s r = (r.form ≡ s.form) × (r.last_synced ≡ s.last_synced)

  sync-IsKept :
      (t : T) (s : FormState json)
      → IsEdited s
      → (json s.form === json t) ≡ false
      → IsKept s (sync json t s)
  unfolding sync
  sync-IsKept t s e h = elim (Bool-cases (same_text (some (json t)) s.last_synced)) [
    | inl k ↦ rw k (refl, refl)
    | inr k ↦ rw (k, e, h) (refl, refl)
  ]

  step-IsKept :
      (s : FormState json) (e : Event json)
      → IsEdited s
      → IsOther s.form e
      → IsKept s (step json s e)
  unfolding step render
  step-IsKept s (renders none) h o = (refl, refl)
  step-IsKept s (renders (some t)) h o =
      elim (Bool-cases (same_text (server_json json s.server) (some (json t)))) [
        | inl k ↦ rw k (refl, refl)
        | inr k ↦ rw k (sync-IsKept t (record s { server = some t }) h o)
      ]
  step-IsKept s (edits t) h o = absurd o

  -- Edits in progress are never overwritten: a form that differs from the copy taken up last stays
  -- as it is, whatever copies the server sends, until one of them is the form itself.
  pub run-IsKept :
      (s : FormState json) (es : List (Event json))
      → IsEdited s
      → All (IsOther s.form) es
      → ((run json s es).form ≡ s.form) × ((run json s es).last_synced ≡ s.last_synced)
  unfolding run
  run-IsKept s [] h o = (refl, refl)
  run-IsKept s (e ∷ es) h (o, os) =
      let (f, l) = step-IsKept s e h o in
      let edited : IsEdited (step json s e) = rw (f, l) h in
      let others : All (IsOther (step json s e).form) es = rw f os in
      let (f2, l2) = run-IsKept (step json s e) es edited others in (f2 ∙ f, l2 ∙ l)

  sync-server : (t : T) (s : FormState json) → (sync json t s).server ≡ s.server
  unfolding sync
  sync-server t s = elim (Bool-cases (same_text (some (json t)) s.last_synced)) [
    | inl k ↦ rw k refl
    | inr k ↦
        rw k
          (elim (Bool-cases
            (not (same_text (some (json s.form)) s.last_synced) && not (json s.form === json t))) [
              | inl m ↦ rw m refl
              | inr m ↦ rw m refl
            ])
  ]

  pub render-server : (t : T) (s : FormState json) → (render json (some t) s).server ≡ some t
  unfolding render
  render-server t s = elim (Bool-cases (same_text (server_json json s.server) (some (json t)))) [
    | inl k ↦ rw k refl
    | inr k ↦ rw k (sync-server t (record s { server = some t }))
  ]

  pub render-IsKept :
      (s : FormState json) (t : T)
      → IsEdited s
      → (json s.form === json t) ≡ false
      → IsKept s (render json (some t) s)
  unfolding step
  render-IsKept s t e o = step-IsKept s (renders (some t)) e o

  -- A form that is mounted before the server's copy is there never takes it up: unless a copy
  -- happens to be the form itself, the form stays as it was mounted, and is reported as edited.
  pub cold_load :
      (form t : T) (es : List (Event json))
      → All (IsOther form) es
      → (json form === json t) ≡ false
      → ((render json (some t) (run json (mounted json form) es)).form ≡ form)
        × (is_dirty json (render json (some t) (run json (mounted json form) es)) ≡ true)
  unfolding is_dirty same_text
  cold_load form t es others h =
      let s : FormState json = run json (mounted json form) es in
      let (f, l) = run-IsKept (mounted json form) es refl others in
      let edited : IsEdited s = rw (f, l) refl in
      let other : (json s.form === json t) ≡ false = rw f h in
      let kept : IsKept s (render json (some t) s) = render-IsKept s t edited other in
      let same : (render json (some t) s).form ≡ form = kept.0 ∙ f in
      (same, rw (same, render-server t s, h) refl)

  -- The form is the copy taken up last, and the one last rendered if there is one.
  pub record IsPristine (s : FormState json) : Type 0 where
    pub synced : same_text (some (json s.form)) s.last_synced ≡ true
    pub shown : (u : T) → s.server ≡ some u → (json s.form === json u) ≡ true

  -- The form and the copy that was taken up last are the given one.
  abbrev IsAt : T → FormState json → Type 0
  IsAt t s =
      ((json s.form === json t) ≡ true) × (same_text (some (json s.form)) s.last_synced ≡ true)

  same_text-eq : (x : JsString) (o : Option JsString) → same_text (some x) o ≡ true → o ≡ some x
  unfolding same_text
  same_text-eq x none h = cc
  same_text-eq x (some y) h = ap (λ (z : JsString). some z) (sym ((===_iff x y).0 h))

  sync-IsAt :
      (t : T) (s : FormState json)
      → same_text (some (json s.form)) s.last_synced ≡ true
      → IsAt t (sync json t s)
  unfolding sync same_text
  sync-IsAt t s h = elim (Bool-cases (same_text (some (json t)) s.last_synced)) [
    | inl k ↦
        let a : s.last_synced ≡ some (json t) = same_text-eq (json t) s.last_synced k in
        rw k (
          (===_iff (json s.form) (json t)).1
              (unsome (sym (same_text-eq (json s.form) s.last_synced h) ∙ a)),
          h,
        )
    | inr k ↦
        rw (k, h)
          (elim (Bool-cases (json s.form === json t)) [
            | inl m ↦ rw m (m, m)
            | inr m ↦ rw m (===_refl (json t), ===_refl (json t))
          ])
  ]
    where
      unsome : {x y : JsString} → Option.some x ≡ some y → x ≡ y
      unsome e = ground arith

  render-IsAt : (t : T) (s : FormState json) → IsPristine s → IsAt t (render json (some t) s)
  unfolding render same_text
  render-IsAt t s p = by_server s.server refl
    where
      by_server :
          (o : Option T)
          → s.server ≡ o
          → IsAt t (
              if same_text (server_json json o) (some (json t))
              then record s { server = some t }
              else sync json t (record s { server = some t }))
      by_server none e = sync-IsAt t (record s { server = some t }) p.synced
      by_server (some u) e = elim (Bool-cases (json u === json t)) [
        | inl k ↦
            let a : json s.form ≡ json t = (===_iff _ _).0 (p.shown u e) ∙ (===_iff _ _).0 k in
            rw k ((===_iff _ _).1 a, p.synced)
        | inr k ↦ rw k (sync-IsAt t (record s { server = some t }) p.synced)
      ]

  none-IsPristine : (s : FormState json) → IsPristine s → IsPristine (render json none s)
  unfolding render
  none-IsPristine s p = record { synced = p.synced; shown = λ u e. cc }

  render-IsPristine :
      (o : Option T) (s : FormState json) → IsPristine s → IsPristine (render json o s)
  render-IsPristine none s p = none-IsPristine s p
  render-IsPristine (some t) s p =
      let (shown, synced) = render-IsAt t s p in
      record { synced = synced; shown = λ u e. at_copy u (sym (render-server t s) ∙ e) shown }
    where
      at_copy :
          (u : T)
          → Option.some t ≡ some u
          → (json (render json (some t) s).form === json t) ≡ true
          → (json (render json (some t) s).form === json u) ≡ true
      at_copy u e h =
          let same : t ≡ u = ground arith in
          subst (λ v. (json (render json (some t) s).form === json v) ≡ true) same h

  -- Only renders, no edit.
  abbrev pub IsRender : Event json → Type 0
  IsRender (renders o) = Unit
  IsRender (edits t) = ⊥

  run-IsPristine :
      (s : FormState json) (es : List (Event json))
      → All IsRender es
      → IsPristine s
      → IsPristine (run json s es)
  unfolding run step
  run-IsPristine s [] h p = p
  run-IsPristine s (renders o ∷ es) (_, h) p =
      run-IsPristine (render json o s) es h (render-IsPristine o s p)
  run-IsPristine s (edits t ∷ es) (h, _) p = absurd h

  -- A form that has been taken up once and is not edited follows the server: after any renders it
  -- is the copy that was rendered last, and is not reported as edited.
  pub run-follows :
      (s : FormState json) (es : List (Event json)) (t : T)
      → IsPristine s
      → All IsRender es
      → ((json (render json (some t) (run json s es)).form === json t) ≡ true)
        × (is_dirty json (render json (some t) (run json s es)) ≡ false)
  unfolding is_dirty
  run-follows s es t p h =
      let (shown, _) = render-IsAt t (run json s es) (run-IsPristine s es h p) in
      (shown, rw (render-server t (run json s es), shown) refl)

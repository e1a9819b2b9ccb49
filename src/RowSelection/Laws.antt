-- ===== src/RowSelection/Laws.antt =====
-- What a bulk action reaches.
use ldapwarden.Prelude.{
  if◌then◌else◌, Bool-cases, and-eq-true, JsString, ◌===◌, ===_refl, ===_iff, ===_comm, includes,
  filter, all, any-append, ◌≡◌, refl, sym, ap, ◌∙◌, ◌⊎◌, inl, inr, true, false, not, ◌&&◌, ◌||◌,
  List, [], ◌∷◌, ◌++◌, map, arith,
}
use ldapwarden.RowSelection.{toggle_one, set_of, selected_rows, every_selected, toggle_all}

includes-append :
    (x : JsString) (xs ys : List JsString)
    → includes x (xs ++ ys) ≡ (includes x xs || includes x ys)
includes-append x xs ys = any-append (λ y. y === x) xs ys

includes-set_of :
    (x : JsString) (values set : List JsString)
    → includes x (set_of values set) ≡ (includes x set || includes x values)
unfolding set_of
includes-set_of x [] set = ground arith
includes-set_of x (v ∷ values) set = elim (Bool-cases (includes v set)) [
  | inl e ↦ rw e (includes-set_of x values set ∙ known (Bool-cases (v === x)) e)
  | inr e ↦
      rw e
        (includes-set_of x values (set ++ v ∷ []) ∙ ground (arith, includes-append x set (v ∷ [])))
]
  where
    known :
        ((v === x) ≡ true) ⊎ ((v === x) ≡ false)
        → includes v set ≡ true
        → (includes x set || includes x values) ≡ (includes x set || includes x (v ∷ values))
    known (inl h) e =
        let same : v ≡ x = (===_iff v x).0 h in
        let there : includes x set ≡ true = rw (← same) e in rw there refl
    known (inr h) e = rw h refl

includes-filter :
    (x dn : JsString) (set : List JsString)
    → includes x (filter (λ s. not (s === dn)) set) ≡ (includes x set && not (x === dn))
includes-filter x dn [] = refl
includes-filter x dn (s ∷ set) = elim (Bool-cases (s === dn)) [
  | inl e ↦
      let same : s ≡ dn = (===_iff s dn).0 e in
      rw e (includes-filter x dn set ∙ gone (Bool-cases (s === x)) same)
  | inr e ↦
      rw e (ap (λ b. (s === x) || b) (includes-filter x dn set) ∙ stays (Bool-cases (s === x)) e)
]
  where
    gone :
        ((s === x) ≡ true) ⊎ ((s === x) ≡ false)
        → s ≡ dn
        → (includes x set && not (x === dn)) ≡ (((s === x) || includes x set) && not (x === dn))
    gone (inl h) same =
        let it : (x === dn) ≡ true = (===_iff x dn).1 (sym ((===_iff s x).0 h) ∙ same) in
        rw (h, it) (ground arith)
    gone (inr h) same = rw h refl

    stays :
        ((s === x) ≡ true) ⊎ ((s === x) ≡ false)
        → (s === dn) ≡ false
        → ((s === x) || (includes x set && not (x === dn)))
          ≡ (((s === x) || includes x set) && not (x === dn))
    stays (inl h) e =
        let it : (x === dn) ≡ false = rw (sym ((===_iff s x).0 h)) e in rw (h, it) refl
    stays (inr h) e = rw h refl

-- Toggling a row turns the selection of that row round, and changes that of no other.
pub includes-toggle_one :
    (x dn : JsString) (selected : List JsString)
    → includes x (toggle_one dn selected)
      ≡ (if x === dn then not (includes x selected) else includes x selected)
unfolding toggle_one
includes-toggle_one x dn selected = elim (Bool-cases (includes dn selected)) [
  | inl e ↦ rw e (includes-filter x dn selected ∙ taken (Bool-cases (x === dn)) e)
  | inr e ↦ rw e (includes-append x selected (dn ∷ []) ∙ added (Bool-cases (x === dn)) e)
]
  where
    taken :
        ((x === dn) ≡ true) ⊎ ((x === dn) ≡ false)
        → includes dn selected ≡ true
        → (includes x selected && not (x === dn))
          ≡ (if x === dn then not (includes x selected) else includes x selected)
    taken (inl h) e =
        let there : includes x selected ≡ true = rw (sym ((===_iff x dn).0 h)) at e in
        rw (h, there) refl
    taken (inr h) e = rw h (ground arith)

    added :
        ((x === dn) ≡ true) ⊎ ((x === dn) ≡ false)
        → includes dn selected ≡ false
        → (includes x selected || ((dn === x) || false))
          ≡ (if x === dn then not (includes x selected) else includes x selected)
    added (inl h) e =
        let there : includes x selected ≡ false = rw (sym ((===_iff x dn).0 h)) at e in
        let back : (dn === x) ≡ true = (===_iff dn x).1 (sym ((===_iff x dn).0 h)) in
        rw (h, there, back) refl
    added (inr h) e = rw (h, ===_comm dn x ∙ h) (ground arith)

module _ {Row : Type 0} (dn : Row → JsString) where
  every_mapped :
      (rows : List Row) (set : List JsString)
      → ((x : JsString) → includes x (map dn rows) ≡ true → includes x set ≡ true)
      → all (λ row. includes (dn row) set) rows ≡ true
  every_mapped [] set h = refl
  every_mapped (r ∷ rows) set h =
      let first : includes (dn r) set ≡ true = h (dn r) (ground (arith, ===_refl (dn r))) in
      rw first (every_mapped rows set (λ x m. h x (ground arith)))

  filter_every :
      (rows : List Row) (set : List JsString)
      → all (λ row. includes (dn row) set) rows ≡ true
      → filter (λ row. includes (dn row) set) rows ≡ rows
  filter_every [] set h = refl
  filter_every (r ∷ rows) set h =
      let both : (includes (dn r) set ≡ true) × (all (λ row. includes (dn row) set) rows ≡ true) =
        and-eq-true h in
      rw both.0 (ap (◌∷◌ r) (filter_every rows set both.1))

  filter_nothing : (rows : List Row) → filter (λ row. includes (dn row) []) rows ≡ []
  filter_nothing [] = refl
  filter_nothing (r ∷ rows) = filter_nothing rows

  -- The box for all rows selects exactly the rows on screen, whatever was selected before on this
  -- or another page; where all of them are selected it selects none.
  pub selected_rows-toggle_all :
      (rows : List Row) (selected : List JsString)
      → selected_rows dn rows (toggle_all dn rows selected)
        ≡ (if every_selected dn rows selected then [] else rows)
  unfolding selected_rows toggle_all
  selected_rows-toggle_all rows selected = elim (Bool-cases (every_selected dn rows selected)) [
    | inl e ↦ rw e (filter_nothing rows)
    | inr e ↦ rw e (
        filter_every rows (set_of (map dn rows) []) (
          every_mapped rows (set_of (map dn rows) [])
            (λ x m. includes-set_of x (map dn rows) [] ∙ m)))
  ]

-- ===== src/CsvImport/Laws.antt =====
-- What a row that shows no error holds, and what the columns are matched to.
use mathlib.Core.Bool.{false≢true}
use ldapwarden.Prelude.{
  if◌then◌else◌, Bool-cases, Option-cases, JsString, ◌===◌, ===_refl, look_up, is_empty, All, ◌≡◌,
  refl, sym, ◌∙◌, ◌≢◌, inl, inr, Bool, true, false, ◌||◌, List, [], ◌∷◌, ◌++◌,
}
use ldapwarden.Values.{JsNumber, Value, Fields, end, field, get, undefined, whole, below_zero}
use ldapwarden.CsvImport.{
  ImportField, FieldType, number_field, string_array, text_field, ParsedRow, Cell, skipped, refused,
  stored, put, missing, typed_cell, filled_cell, cell, number_cell, array_cell, text_cell,
  record_cell, build, build_row, ignored,
}

-- A cell that is stored is no `undefined`, and a required field is never passed over.
abbrev IsSettled : Bool → Cell → Type 0
IsSettled required skipped = required ≡ false
IsSettled required (refused message) = Unit
IsSettled required (stored value) = value ≢ undefined

missing-IsSettled : (f : ImportField) → IsSettled f.required (missing f)
unfolding missing
missing-IsSettled f = elim (Bool-cases f.required) [ inl e ↦ rw e tt | inr e ↦ rw e refl ]

number_cell-IsSettled : (b : Bool) (f : ImportField) (n : JsNumber) → IsSettled b (number_cell f n)
unfolding number_cell
number_cell-IsSettled b f (whole n) = λ e. cc
number_cell-IsSettled b f (below_zero n) = λ e. cc
number_cell-IsSettled b f _ = tt

tested-IsSettled :
    (b test : Bool) (v : Value) (m : JsString)
    → v ≢ undefined
    → IsSettled b (if test then stored v else refused m)
tested-IsSettled b true v m h = h
tested-IsSettled b false v m h = tt

typed_cell-IsSettled :
    (parse : JsString → JsNumber) (t : FieldType) (f : ImportField) (raw : JsString)
    → IsSettled f.required (typed_cell parse t f raw)
unfolding typed_cell array_cell text_cell
typed_cell-IsSettled parse number_field f raw = number_cell-IsSettled f.required f (parse raw)
typed_cell-IsSettled parse string_array f raw = tested-IsSettled _ _ _ _ (λ e. cc)
typed_cell-IsSettled parse text_field f raw = tested-IsSettled _ _ _ _ (λ e. cc)

module _ (parse : JsString → JsNumber) (csv_row mapping : List (JsString × JsString)) where
  filled_cell-IsSettled :
      (f : ImportField) (raw : JsString) → IsSettled f.required (filled_cell parse f raw)
  unfolding filled_cell
  filled_cell-IsSettled f raw = elim (Bool-cases (is_empty raw)) [
    | inl e ↦ rw e (missing-IsSettled f)
    | inr e ↦ rw e (typed_cell-IsSettled parse f.type f raw)
  ]

  cell-IsSettled : (f : ImportField) → IsSettled f.required (cell parse csv_row mapping f)
  unfolding cell
  cell-IsSettled f = elim (Option-cases (look_up f.key mapping)) [
    | inl e ↦ rw (e, cell) (missing-IsSettled f)
    | inr (header, e) ↦
        rw (e, cell)
          (elim (Bool-cases (is_empty header || header === ignored)) [
            | inl b ↦ rw b (missing-IsSettled f)
            | inr b ↦ rw b (filled_cell-IsSettled f _)
          ])
  ]

get-put : (k : JsString) (v : Value) (fs : Fields) → get k (put k v fs) ≡ v
unfolding get put
get-put k v end = rw (===_refl k) refl
get-put k v (field j w fs) = elim (Bool-cases (j === k)) [
  | inl e ↦ rw (e, e) refl
  | inr e ↦ rw (e, e) (get-put k v fs)
]

-- A key that has a value keeps one.
put_keeps :
    (k j : JsString) (v : Value) (fs : Fields)
    → v ≢ undefined
    → get k fs ≢ undefined
    → get k (put j v fs) ≢ undefined
unfolding get put
put_keeps k j v end h g = absurd (g refl)
put_keeps k j v (field i w fs) h g = elim (Bool-cases (i === j)) [
  | inl e ↦ elim (Bool-cases (i === k)) [ inl d ↦ rw (e, d) h | inr d ↦ rw (e, d) (rw d at g) ]
  | inr e ↦ elim (Bool-cases (i === k)) [
    | inl d ↦ rw (e, d) (rw d at g)
    | inr d ↦ rw (e, d) (put_keeps k j v fs h (rw d at g))
  ]
]

errors_before : (xs ys : List JsString) → xs ++ ys ≡ [] → xs ≡ []
errors_before [] ys e = refl
errors_before (x ∷ xs) ys e = cc

module _ (parse : JsString → JsNumber) (csv_row mapping : List (JsString × JsString)) where
  -- The keys that a list of fields asks for, in a row.
  abbrev pub HasRequired : Fields → List ImportField → Type 0
  HasRequired row fields =
      All (λ (f : ImportField). f.required ≡ true → get f.key row ≢ undefined) fields

  pub build_errors :
      (fields : List ImportField) (r : ParsedRow)
      → (build parse csv_row mapping fields r).errors ≡ []
      → r.errors ≡ []
  unfolding build record_cell
  build_errors [] r e = e
  build_errors (f ∷ fields) r e = before (cell parse csv_row mapping f) (build_errors fields _ e)
    where
      before : (c : Cell) → (record_cell parse f c r).errors ≡ [] → r.errors ≡ []
      before skipped k = k
      before (refused m) k = errors_before r.errors (m ∷ []) k
      before (stored v) k = k

  record_keeps :
      (f : ImportField) (c : Cell) (r : ParsedRow) (k : JsString)
      → IsSettled f.required c
      → get k r.row ≢ undefined
      → get k (record_cell parse f c r).row ≢ undefined
  unfolding record_cell
  record_keeps f skipped r k s g = g
  record_keeps f (refused m) r k s g = g
  record_keeps f (stored v) r k s g = put_keeps k f.key v r.row s g

  build_keeps :
      (fields : List ImportField) (r : ParsedRow) (k : JsString)
      → get k r.row ≢ undefined
      → get k (build parse csv_row mapping fields r).row ≢ undefined
  unfolding build
  build_keeps [] r k g = g
  build_keeps (f ∷ fields) r k g =
      build_keeps fields _ k (
        record_keeps f (cell parse csv_row mapping f) r k (cell-IsSettled parse csv_row mapping f)
          g)

  record_stores :
      (f : ImportField) (c : Cell) (r : ParsedRow)
      → IsSettled f.required c
      → (record_cell parse f c r).errors ≡ []
      → f.required ≡ true
      → get f.key (record_cell parse f c r).row ≢ undefined
  unfolding record_cell
  record_stores f skipped r s e q = absurd (false≢true (sym s ∙ q))
  record_stores f (refused m) r s e q = absurd (no_snoc r.errors m e)
    where
      no_snoc : (xs : List JsString) (x : JsString) → ¬ (xs ++ x ∷ [] ≡ [])
      no_snoc [] x k = cc
      no_snoc (y ∷ xs) x k = cc
  record_stores f (stored v) r s e q = λ u. s (sym (get-put f.key v r.row) ∙ u)

  build-HasRequired :
      (fields : List ImportField) (r : ParsedRow)
      → (build parse csv_row mapping fields r).errors ≡ []
      → HasRequired (build parse csv_row mapping fields r).row fields
  unfolding build
  build-HasRequired [] r e = tt
  build-HasRequired (f ∷ fields) r e = (
    λ q. build_keeps fields _ f.key (
        record_stores f (cell parse csv_row mapping f) r (cell-IsSettled parse csv_row mapping f)
          (build_errors fields _ e) q),
    build-HasRequired fields _ e,
  )

  -- A row of the file that is shown without an error, and is sent, has a value for every required
  -- field, however the columns are mapped.
  pub build_row-HasRequired :
      (fields : List ImportField)
      → (build_row parse csv_row fields mapping).errors ≡ []
      → HasRequired (build_row parse csv_row fields mapping).row fields
  unfolding build_row
  build_row-HasRequired fields e = build-HasRequired fields _ e

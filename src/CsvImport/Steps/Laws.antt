-- ===== src/CsvImport/Steps/Laws.antt =====
-- What is sent by an import.
use mathlib.Core.List.{Memᴰ}
use ldapwarden.Prelude.{
  Bool-cases, JsString, text, ===_refl, look_up, is_empty, filter, All, All-append, ◌≡◌, refl, ◌≢◌,
  inl, inr, true, false, ◌||◌, some, List, [], ◌∷◌, ◌++◌, map, arith,
}
use ldapwarden.Values.{JsNumber, Fields, get, undefined}
use ldapwarden.CsvImport.{
  ImportField, ParsedRow, refused, cell, missing, record_cell, build, build_row, ignored,
}
use ldapwarden.CsvImport.Laws.{build_errors, build_row-HasRequired}
use ldapwarden.CsvImport.Steps.{
  ImportStep, upload, map_columns, preview, result, Import, Event, file_parsed, file_failed,
  column_chosen, back, next, submit, answered, request_failed, named, is_unmapped, shows_rows,
  required_unmapped, parsed_rows, valid_rows, take_file, go_back, go_next, send, choose,
  import_event, import_events,
}

module _ (lower : JsString → JsString) (parse : JsString → JsNumber)
    (fields : List ImportField) where
  -- A row with a value for every required field.
  abbrev pub IsFilled : Fields → Type 0
  IsFilled row = All (λ (f : ImportField). f.required ≡ true → get f.key row ≢ undefined) fields

  -- A request with a row, and only such rows.
  abbrev pub IsSent : List Fields → Type 0
  IsSent rows = (is_empty rows ≡ false) × All IsFilled rows

  rows-IsFilled :
      (mapping : List (JsString × JsString)) (csv_rows : List (List (JsString × JsString)))
      → All IsFilled (
          map
            (λ r. r.row)
            (filter
              (λ r. is_empty r.errors)
              (map (λ csv_row. build_row parse csv_row fields mapping) csv_rows)))
  rows-IsFilled mapping [] = tt
  rows-IsFilled mapping (csv_row ∷ csv_rows) =
      let r = build_row parse csv_row fields mapping in
      elim (Bool-cases (is_empty r.errors)) [
        | inl e ↦ rw e (
          build_row-HasRequired parse csv_row mapping fields (no_errors r.errors e),
          rows-IsFilled mapping csv_rows,
        )
        | inr e ↦ rw e (rows-IsFilled mapping csv_rows)
      ]
    where
      no_errors : (xs : List JsString) → is_empty xs ≡ true → xs ≡ []
      no_errors [] e = refl
      no_errors (x ∷ xs) e = cc

  valid_rows-IsFilled :
      (s : Import) → All IsFilled (map (λ r. r.row) (valid_rows lower parse fields s))
  unfolding valid_rows parsed_rows
  valid_rows-IsFilled s = elim (Bool-cases (shows_rows s.import_step)) [
    | inl e ↦ rw e (rows-IsFilled s.mapping s.csv_rows)
    | inr e ↦ rw e tt
  ]

  mapped_filled :
      (rows : List ParsedRow) → is_empty rows ≡ false → is_empty (map (λ r. r.row) rows) ≡ false
  mapped_filled [] e = cc
  mapped_filled (r ∷ rows) e = refl

  send-IsSent :
      (k : ImportStep) (s : Import)
      → All IsSent s.requests
      → All IsSent (send lower parse fields k s).requests
  unfolding send
  send-IsSent preview s h =
      elim (Bool-cases (is_empty (valid_rows lower parse fields s) || s.submitting)) [
        | inl e ↦ rw e h
        | inr e ↦ rw e (
            All-append IsSent s.requests _ h (
              (
                mapped_filled (valid_rows lower parse fields s) (ground arith),
                valid_rows-IsFilled s,
              ),
              tt,
            ))
      ]
  send-IsSent upload s h = h
  send-IsSent map_columns s h = h
  send-IsSent result s h = h

  choose-requests :
      (key value : JsString) (k : ImportStep) (s : Import)
      → (choose lower parse fields key value k s).requests ≡ s.requests
  unfolding choose
  choose-requests key value map_columns s = refl
  choose-requests key value upload s = refl
  choose-requests key value preview s = refl
  choose-requests key value result s = refl

  go_back-requests :
      (k : ImportStep) (s : Import) → (go_back lower parse fields k s).requests ≡ s.requests
  unfolding go_back
  go_back-requests map_columns s = refl
  go_back-requests preview s = refl
  go_back-requests upload s = refl
  go_back-requests result s = refl

  go_next-requests :
      (k : ImportStep) (s : Import) → (go_next lower parse fields k s).requests ≡ s.requests
  unfolding go_next
  go_next-requests map_columns s =
      elim (Bool-cases (is_empty (required_unmapped lower parse fields s))) [
        | inl e ↦ rw e refl
        | inr e ↦ rw e refl
      ]
  go_next-requests upload s = refl
  go_next-requests preview s = refl
  go_next-requests result s = refl

  import_event-IsSent :
      (s : Import) (e : Event)
      → All IsSent s.requests
      → All IsSent (import_event lower parse fields s e).requests
  unfolding import_event take_file
  import_event-IsSent s (file_parsed cols csv_rows) h =
      elim (Bool-cases (is_empty (named cols) || is_empty csv_rows)) [
        | inl e ↦ rw e h
        | inr e ↦ rw e h
      ]
  import_event-IsSent s file_failed h = h
  import_event-IsSent s (column_chosen key value) h =
      rw (choose-requests key value s.import_step s) h
  import_event-IsSent s back h = rw (go_back-requests s.import_step s) h
  import_event-IsSent s next h = rw (go_next-requests s.import_step s) h
  import_event-IsSent s submit h = send-IsSent s.import_step s h
  import_event-IsSent s (answered r) h = h
  import_event-IsSent s (request_failed m) h = h

  -- Whatever file is chosen and however its columns are mapped, each request of an import has at
  -- least one row, and every row of it has a value for every required field.
  pub requests-IsSent :
      (s : Import) (es : List Event)
      → All IsSent s.requests
      → All IsSent (import_events lower parse fields s es).requests
  unfolding import_events
  requests-IsSent s [] h = h
  requests-IsSent s (e ∷ es) h =
      requests-IsSent (import_event lower parse fields s e) es (import_event-IsSent s e h)

  no_snoc : (xs : List JsString) (x : JsString) → ¬ (xs ++ x ∷ [] ≡ [])
  no_snoc [] x k = cc
  no_snoc (y ∷ xs) x k = cc

  build-ne-nil :
      (mapping csv_row : List (JsString × JsString)) (fs : List ImportField) (f : ImportField)
      (message : JsString) (r : ParsedRow)
      → Memᴰ f fs
      → cell parse csv_row mapping f ≡ refused message
      → (build parse csv_row mapping fs r).errors ≢ []
  unfolding build record_cell
  build-ne-nil mapping csv_row (g ∷ fs) f message r (Memᴰ.head e) c n =
      let refusal : cell parse csv_row mapping g ≡ refused message = rw (← e) c in
      let errors : (record_cell parse g (cell parse csv_row mapping g) r).errors ≡ [] =
        build_errors parse csv_row mapping fs _ n in
      no_snoc r.errors message (rw refusal at errors)
  build-ne-nil mapping csv_row (g ∷ fs) f message r (Memᴰ.tail m) c n =
      build-ne-nil mapping csv_row fs f message _ m c n
  build-ne-nil mapping csv_row [] f message r m c n = elim m [ ]

  cell-ignored :
      (mapping csv_row : List (JsString × JsString)) (f : ImportField)
      → f.required ≡ true
      → look_up f.key mapping ≡ some ignored
      → cell parse csv_row mapping f ≡ refused (f.label ++ text " is required")
  unfolding cell missing
  cell-ignored mapping csv_row f r e = rw (e, cell, ===_refl ignored) (rw r refl)

  none_valid :
      (mapping : List (JsString × JsString)) (csv_rows : List (List (JsString × JsString)))
      (f : ImportField)
      → Memᴰ f fields
      → f.required ≡ true
      → look_up f.key mapping ≡ some ignored
      → filter
          (λ r. is_empty r.errors)
          (map (λ csv_row. build_row parse csv_row fields mapping) csv_rows)
        ≡ []
  unfolding build_row
  none_valid mapping [] f m r e = refl
  none_valid mapping (csv_row ∷ csv_rows) f m r e =
      let invalid : is_empty (build_row parse csv_row fields mapping).errors ≡ false =
        filled _
          (build-ne-nil mapping csv_row fields f _ _ m (cell-ignored mapping csv_row f r e)) in
      rw invalid (none_valid mapping csv_rows f m r e)
    where
      filled : (xs : List JsString) → xs ≢ [] → is_empty xs ≡ false
      filled [] n = absurd (n refl)
      filled (x ∷ xs) n = refl

  -- A required field whose column is set to "ignore" does not keep the operator from the preview, as
  -- a required field without a column does; but then no row is valid, so that nothing can be
  -- imported.
  pub ignored_required :
      (s : Import) (f : ImportField)
      → Memᴰ f fields
      → f.required ≡ true
      → look_up f.key s.mapping ≡ some ignored
      → (is_unmapped s.mapping f ≡ false) × (valid_rows lower parse fields s ≡ [])
  unfolding is_unmapped valid_rows parsed_rows
  ignored_required s f m r e = (rw (r, e) refl, none_shown)
    where
      none_shown : valid_rows lower parse fields s ≡ []
      none_shown = elim (Bool-cases (shows_rows s.import_step)) [
        | inl q ↦ rw q (none_valid s.mapping s.csv_rows f m r e)
        | inr q ↦ rw q refl
      ]

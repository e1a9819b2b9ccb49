-- ===== src/Bulk/Report.antt =====
-- What a page does with a bulk action: `run` of web/src/components/users-bulk-actions.tsx and of
-- web/src/components/bulk-delete-actions.tsx, and web/src/components/bulk-result-dialog.tsx.
use ldapwarden.Prelude.{
  if◌then◌else◌, Bool-cases, and-eq-true, some-injective, decimal, JsString, text, is_empty, length,
  ℕ, ◌+◌, ◌<◌, ◌≡◌, refl, sym, ap, ◌∙◌, ◌↔◌, inl, inr, Bool, true, ◌&&◌, Option, none, some, List,
  [], ◌∷◌, ◌++◌,
}
use ldapwarden.Values.{Value}
use ldapwarden.Bulk.Run.{BulkFailure, BulkResult, Settled, fulfilled, rejected, Run, Trace}
use ldapwarden.Bulk.Invariant.{failures}
use ldapwarden.Bulk.Results.{run_bulk_complete}
use ldapwarden.Bulk.Summary.{unit_of, bulk_summary}
use ldapwarden.Bulk.Warnings.{warnings_of}

pub record BulkWarning (A : Type 0) : Type 0 where
  pub item : A
  pub warnings : List JsString

pub record BulkOutcome (A : Type 0) : Type 0 where
  pub verb : JsString
  pub noun : JsString
  pub succeeded : ℕ
  pub failed : List (BulkFailure A)
  pub warned : List (BulkWarning A)

-- The toast, and the dialog where there is something to list.
pub record BulkReport (A : Type 0) : Type 0 where
  pub is_success : Bool
  pub message : JsString
  pub outcome : Option (BulkOutcome A)

-- `if (warnings.length > 0) warned.push({ item, warnings })`.
unfoldable pub warn_if : {A : Type 0} → A → List JsString → List (BulkWarning A)
warn_if item warnings =
    if is_empty warnings then [] else record { item = item; warnings = warnings } ∷ []

-- `warned` after the requests that have been settled, the last first, for what each answered.
unfoldable pub warned_of : {A : Type 0} → (A → Value) → List (A × Settled) → List (BulkWarning A)
unfolding warn_if
warned_of answer [] = []
warned_of answer ((x, fulfilled) ∷ h) = warned_of answer h ++ warn_if x (warnings_of (answer x))
warned_of answer ((x, rejected e) ∷ h) = warned_of answer h

unfoldable pub report_run :
    {A : Type 0} → JsString → JsString → BulkResult A → List (BulkWarning A) → BulkReport A
report_run verb noun result warned = record {
  is_success = is_empty result.failed;
  message = bulk_summary verb noun result;
  outcome =
      if is_empty result.failed && is_empty warned
      then none
      else some (record {
        verb = verb;
        noun = noun;
        succeeded = result.succeeded;
        failed = result.failed;
        warned = warned;
      });
}

-- The title of the dialog.
unfoldable pub dialog_title : {A : Type 0} → BulkOutcome A → JsString
unfolding unit_of
dialog_title o =
    let total = o.succeeded + length o.failed in
    o.verb
    ++ (text " "
        ++ (decimal o.succeeded
            ++ (text " of " ++ (decimal total ++ (text " " ++ unit_of o.noun total)))))

is_empty_eq : {A : Type 0} (xs : List A) → is_empty xs ≡ true → xs ≡ []
is_empty_eq [] h = refl
is_empty_eq (x ∷ xs) h = cc

module _ {A : Type 0} (items : List A) (c : ℕ) (pos : 0 < c) {h : List (A × Settled)} {r : Run A}
    (t : Trace items c h r) (answer : A → Value) (verb noun : JsString) where
  abbrev pub final_report : BulkReport A
  final_report =
      report_run verb noun (record { succeeded = r.succeeded; failed = r.failed })
        (warned_of answer h)

  -- When a bulk action has ended, its result is reported as a success exactly if no request failed,
  -- and there is no dialog exactly if, besides, no answer held a warning.
  pub report_quiet :
      r.in_flight ≡ []
      → ((final_report.is_success ≡ true) ↔ (failures h ≡ []))
        × ((final_report.outcome ≡ none) ↔ ((failures h ≡ []) × (warned_of answer h ≡ [])))
  unfolding report_run
  report_quiet e =
      let (_, _, failed, _) = run_bulk_complete items c pos t e in
      let full : BulkOutcome A = record {
        verb = verb;
        noun = noun;
        succeeded = r.succeeded;
        failed = failures h;
        warned = warned_of answer h;
      } in
      rw failed
        ((λ q. is_empty_eq (failures h) q, λ q. rw q refl), (quiet full, λ (p, q). rw (p, q) refl))
    where
      quiet :
          (full : BulkOutcome A)
          → (if is_empty (failures h) && is_empty (warned_of answer h) then none else some full)
            ≡ none
          → (failures h ≡ []) × (warned_of answer h ≡ [])
      quiet full q = elim (Bool-cases (is_empty (failures h) && is_empty (warned_of answer h))) [
        | inl p ↦
            let (a, b) = and-eq-true p in
            (is_empty_eq (failures h) a, is_empty_eq (warned_of answer h) b)
        | inr p ↦ let k = rw p at q in cc
      ]

  -- The dialog of a bulk action that has ended lists every failed request and every warning, in the
  -- order in which they came, and its two counts add up to the items that were selected.
  pub dialog_complete :
      (o : BulkOutcome A)
      → r.in_flight ≡ []
      → final_report.outcome ≡ some o
      → (o.failed ≡ failures h)
        × (o.warned ≡ warned_of answer h)
        × (o.succeeded + length o.failed ≡ length items)
  unfolding report_run
  dialog_complete o e q =
      let (_, _, failed, whole) = run_bulk_complete items c pos t e in
      elim (Bool-cases (is_empty r.failed && is_empty (warned_of answer h))) [
        | inl p ↦ absurd (no_dialog (rw p at q))
        | inr p ↦
            let same = some-injective (rw p at q) in
            (
              ap (λ d. d.failed) (sym same) ∙ failed,
              ap (λ d. d.warned) (sym same),
              ap (λ d. d.succeeded + length d.failed) (sym same) ∙ whole,
            )
      ]
    where
      no_dialog : ¬ (Option.none ≡ some o)
      no_dialog k = cc

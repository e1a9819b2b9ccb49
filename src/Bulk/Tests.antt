-- ===== src/Bulk/Tests.antt =====
-- The theorems on bulk runs at a run over two items.
use mathlib.Core.List.{Perm}
use ldapwarden.Prelude.{
  decimal, text, length, take, ℕ, ◌+◌, ◌≤◌, ◌≡◌, refl, ◌↔◌, List, [], ◌∷◌, map, arith,
}
use ldapwarden.Bulk.Run.{
  Settled, fulfilled, rejected, error_object, Run, Trace, started, settles, start, resume, launch,
  next, count, report, BulkResult,
}
use ldapwarden.Bulk.Invariant.{successes, failures}
use ldapwarden.Bulk.Results.{run_bulk_bounded, run_bulk_ends, run_bulk_complete}
use ldapwarden.Bulk.Summary.{bulk_summary, unit_of}

abbrev two : List ℕ
two = 7 ∷ 9 ∷ []

abbrev locked_out : Settled
locked_out = rejected (error_object (text "busy"))

bulk : Unit {0}
unfolding start resume launch next count report
bulk = tt

-- One worker: the first item fails, then the second succeeds.
abbrev history : List (ℕ × Settled)
history = (9, fulfilled) ∷ (7, locked_out) ∷ []

abbrev final : Run ℕ
final = resume two 0 9 fulfilled (resume two 0 7 locked_out (start two 1))

ended : Trace two 1 history final
unfolding bulk
ended = settles (settles started 0 7 locked_out refl) 0 9 fulfilled refl

final_empty : final.in_flight ≡ []
unfolding bulk
final_empty = refl

run_bulk_bounded_example : (length final.in_flight ≤ 1) × (final.called ≡ take final.index two)
run_bulk_bounded_example = run_bulk_bounded two 1 ended

run_bulk_ends_example :
    (length history ≤ length two) × ((final.in_flight ≡ []) ↔ (length history ≡ length two))
run_bulk_ends_example = run_bulk_ends two 1 (omega arith) ended

run_bulk_complete_example :
    Perm (map (λ (s : ℕ × Settled). s.0) history) two
    × (final.succeeded ≡ successes history)
    × (final.failed ≡ failures history)
    × (final.succeeded + length final.failed ≡ length two)
run_bulk_complete_example = run_bulk_complete two 1 (omega arith) ended final_empty

abbrev one_each : BulkResult ℕ
one_each = record { succeeded = 1; failed = record { item = 7; error = text "busy" } ∷ [] }

summaries : bulk_summary (text "Locked") (text "user") one_each ≡ text "Locked 1 user, 1 failed."
unfolding bulk_summary unit_of decimal
summaries = refl

-- ===== src/Outcome/Tests.antt =====
-- The theorems on outcomes at a short sequence of calls.
use ldapwarden.Prelude.{text, drop, ◌≡◌, none, [], ◌∷◌, ◌++◌}
use ldapwarden.Outcome.{
  Outcome, Store, shows, dismisses, subscribes, shown, dismissals, run, queue-run,
}

abbrev to_do : Outcome
to_do = record {
  title = text "Home directories left behind";
  description = none;
  items = text "/home/jdoe" ∷ [];
  tone = none;
}

abbrev nothing_to_do : Outcome
nothing_to_do = record to_do { items = [] }

abbrev empty_store : Store
empty_store = record { queue = []; listeners = []; calls = [] }

queue-run_example :
    (run empty_store (subscribes 1 ∷ shows nothing_to_do ∷ dismisses ∷ shows to_do ∷ [])).queue
    ≡ drop
        (dismissals empty_store (subscribes 1 ∷ shows nothing_to_do ∷ dismisses ∷ shows to_do ∷ []))
        ([] ++ shown (subscribes 1 ∷ shows nothing_to_do ∷ dismisses ∷ shows to_do ∷ []))
queue-run_example =
    queue-run empty_store (subscribes 1 ∷ shows nothing_to_do ∷ dismisses ∷ shows to_do ∷ [])

-- ===== src/Bulk/Results.antt =====
-- `runBulk` over all the orders in which its requests are settled.
use mathlib.Core.List.{append-nil, Perm}
use mathlib.Core.List.Perm
use native.Mathlib.Decide.{dec_le}
use Prim.Native.Nat.{min}
use ldapwarden.Prelude.{
  length, take, length-append, take_all, length-take-le, eq-nil_of_length, ℕ, ◌+◌, ◌≤◌, ◌<◌, ◌≡◌,
  refl, ap, ◌∙◌, subst, ◌↔◌, List, [], ◌∷◌, ◌++◌, map, arith,
}
use ldapwarden.Bulk.Run.{
  Settled, fulfilled, rejected, Run, untouched, start, resume, Trace, started, settles,
}
use ldapwarden.Bulk.Invariant.{
  failures, successes, progress_to, IsQueue, IsResult, IsBusy, next-IsQueue, next-IsResult,
  reported-IsBusy, reported-IsQueue, reported-IsResult, launch-IsQueue, launch-IsResult,
  launch_busy,
}

module _ {A : Type 0} (items : List A) where
  abbrev workers : ℕ → ℕ
  workers concurrency = min concurrency (length items)

  Trace-IsQueue : (c : ℕ) {h : List (A × Settled)} {r : Run A} → Trace items c h r → IsQueue items r
  unfolding start resume
  Trace-IsQueue c started = launch-IsQueue items _ _ (record { called = refl; flying = refl })
  Trace-IsQueue c (settles t p x o e) =
      next-IsQueue items _ (reported-IsQueue items p x o _ e (Trace-IsQueue c t))

  Trace-IsResult :
      (c : ℕ) {h : List (A × Settled)} {r : Run A} → Trace items c h r → IsResult items h r
  unfolding start resume
  Trace-IsResult c started = launch-IsResult items _ [] _ (record {
    succeeded = refl;
    failed = refl;
    settled = refl;
    progress = refl;
    accounted = Perm.rfl;
  })
  Trace-IsResult c (settles t p x o e) =
      next-IsResult items _ _ (reported-IsResult items p x _ _ e (Trace-IsResult c t) o)

  start-IsBusy : (c : ℕ) → IsBusy items (workers c) (start items c)
  unfolding start
  start-IsBusy c =
      let full = launch_busy items (workers c) (untouched items) (omega arith) in
      (omega (arith, full), λ lt. omega (arith, full))

  Trace-IsBusy :
      (c : ℕ) {h : List (A × Settled)} {r : Run A} → Trace items c h r → IsBusy items (workers c) r
  unfolding resume
  Trace-IsBusy c started = start-IsBusy c
  Trace-IsBusy c (settles {r = r} t p x o e) =
      reported-IsBusy items (workers c) p x o r e (Trace-IsBusy c t)

successes-failures :
    {A : Type 0} (h : List (A × Settled)) → successes h + length (failures h) ≡ length h
successes-failures [] = refl
successes-failures ((x, fulfilled) ∷ h) = omega (arith, successes-failures h)
successes-failures ((x, rejected e) ∷ h) =
    omega (arith, successes-failures h, length-append (failures h) (_ ∷ []))

-- However the requests are settled, no more than `concurrency` of them are in flight at once, and
-- the worker is called on the items in their order, on each at most once.
pub run_bulk_bounded :
    {A : Type 0} (items : List A) (c : ℕ) {h : List (A × Settled)} {r : Run A}
    → Trace items c h r
    → (length r.in_flight ≤ c) × (r.called ≡ take r.index items)
run_bulk_bounded items c t =
    (omega (arith, (Trace-IsBusy items c t).0), (Trace-IsQueue items c t).called)

module _ {A : Type 0} (items : List A) (c : ℕ) (pos : 0 < c) {h : List (A × Settled)} {r : Run A}
    (t : Trace items c h r) where
  all_taken : r.in_flight ≡ [] → take r.index items ≡ items
  all_taken e = take_all r.index items (exhausted (dec_le (length items) r.index))
    where
      exhausted : Dec (length items ≤ r.index) → length items ≤ r.index
      exhausted (yes le) = le
      exhausted (no lt) =
          absurd (omega (arith, ap length e, (Trace-IsBusy items c t).1 (omega arith)))

  -- With at least one worker the run ends after exactly as many settled requests as there are
  -- items: none can be settled after that, and some are in flight before.
  pub run_bulk_ends : (length h ≤ length items) × ((r.in_flight ≡ []) ↔ (length h ≡ length items))
  run_bulk_ends =
      let q = Trace-IsQueue items c t in
      let s = (Trace-IsResult items c t).settled in
      (
        omega (arith, q.flying, s, length-take-le r.index items),
        (
          λ e. omega (arith, q.flying, s, ap length e, ap length (all_taken e)),
          λ e.
              eq-nil_of_length r.in_flight
                (omega (arith, q.flying, s, length-take-le r.index items)),
        ),
      )

  -- When the run ends, every item has been settled exactly once, the counts and the failures are
  -- those of the settled requests, in their order, and the two counts add up to the items.
  pub run_bulk_complete :
      r.in_flight ≡ []
      → Perm (map (λ (s : A × Settled). s.0) h) items
        × (r.succeeded ≡ successes h)
        × (r.failed ≡ failures h)
        × (r.succeeded + length r.failed ≡ length items)
  run_bulk_complete e =
      let s = Trace-IsResult items c t in
      (
        subst (Perm (map (λ (a : A × Settled). a.0) h))
            ((Trace-IsQueue items c t).called ∙ all_taken e)
            (rw (← append-nil (map (λ (a : A × Settled). a.0) h))
              (subst (λ fs. Perm (map (λ (a : A × Settled). a.0) h ++ fs) r.called) e s.accounted)),
        s.succeeded,
        s.failed,
        omega (arith, s.succeeded, ap length s.failed, successes-failures h, run_bulk_ends.1.0 e),
      )

  -- The progress is reported once for each settled request, with the number settled so far.
  pub run_bulk_progress : r.progress ≡ progress_to items (length h)
  run_bulk_progress = (Trace-IsResult items c t).progress

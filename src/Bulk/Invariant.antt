-- ===== src/Bulk/Invariant.antt =====
-- What holds of `runBulk` whenever no request is being reported.
use mathlib.Core.List.{append_assoc, Perm, perm_middle}
use mathlib.Core.List.Perm
use ldapwarden.Prelude.{
  Option-cases, length, get_elem?, take, all, length-append, remove_at, length-remove_at,
  remove_at-perm, take_next, get_elem?_below, get_elem?_above, take_end, ℕ, zero, suc, ◌+◌, ◌≤◌,
  ◌<◌, ◌≡◌, refl, sym, ap, ◌∙◌, inl, inr, some, List, [], ◌∷◌, ◌++◌, map, arith,
}
use ldapwarden.Bulk.Run.{
  BulkFailure, message_of, Settled, fulfilled, rejected, Run, next, launch, count, report,
}

-- The outcomes in a history, the last first.
abbrev pub failures : {A : Type 0} → List (A × Settled) → List (BulkFailure A)
failures [] = []
failures ((x, fulfilled) ∷ h) = failures h
failures ((x, rejected e) ∷ h) = failures h ++ record { item = x; error = message_of e } ∷ []

abbrev pub successes : {A : Type 0} → List (A × Settled) → ℕ
successes [] = 0
successes ((x, fulfilled) ∷ h) = suc (successes h)
successes ((x, rejected e) ∷ h) = successes h

module _ {A : Type 0} (items : List A) where
  -- Calls of `onProgress` after so many settled requests.
  abbrev pub progress_to : ℕ → List (ℕ × ℕ)
  progress_to zero = []
  progress_to (suc n) = progress_to n ++ (suc n, length items) ∷ []

  -- The invariant of the queue: which items the worker was called on, and how many are in flight.
  pub record IsQueue (r : Run A) : Type 0 where
    pub called : r.called ≡ take r.index items
    pub flying : length r.in_flight + r.settled ≡ length (take r.index items)

  -- The invariant of the results, against the history.
  pub record IsResult (h : List (A × Settled)) (r : Run A) : Type 0 where
    pub succeeded : r.succeeded ≡ successes h
    pub failed : r.failed ≡ failures h
    pub settled : r.settled ≡ length h
    pub progress : r.progress ≡ progress_to (length h)
    pub accounted : Perm (map (λ (e : A × Settled). e.0) h ++ r.in_flight) r.called

  -- All the workers are busy while items are left.
  abbrev pub IsBusy : ℕ → Run A → Type 0
  IsBusy n r = (length r.in_flight ≤ n) × (r.index < length items → length r.in_flight ≡ n)

  pub next-IsQueue : (r : Run A) → IsQueue r → IsQueue (next items r)
  unfolding next
  next-IsQueue r q = elim (Option-cases (get_elem? items r.index)) [
    | inl e ↦
        rw (e, next)
          (record {
            called = q.called ∙ sym (take_end r.index items e);
            flying = q.flying ∙ ap length (sym (take_end r.index items e));
          })
    | inr (x, e) ↦
        rw (e, next)
          (record {
            called = ap (λ xs. xs ++ x ∷ []) q.called ∙ sym (take_next r.index items x e);
            flying = omega (
              arith,
              q.flying,
              ap length (take_next r.index items x e),
              length-append r.in_flight (x ∷ []),
              length-append (take r.index items) (x ∷ []),
            );
          })
  ]

  pub next-IsResult :
      (h : List (A × Settled)) (r : Run A) → IsResult h r → IsResult h (next items r)
  unfolding next
  next-IsResult h r q = elim (Option-cases (get_elem? items r.index)) [
    | inl e ↦
        rw (e, next)
          (record {
            succeeded = q.succeeded;
            failed = q.failed;
            settled = q.settled;
            progress = q.progress;
            accounted = q.accounted;
          })
    | inr (x, e) ↦
        rw (e, next)
          (record {
            succeeded = q.succeeded;
            failed = q.failed;
            settled = q.settled;
            progress = q.progress;
            accounted =
                rw (← append_assoc (map (λ (s : A × Settled). s.0) h) r.in_flight (x ∷ []))
                  (Perm.append_right (x ∷ []) q.accounted);
          })
  ]

  -- The state in which the worker of a settled request is resumed.
  abbrev pub reported : ℕ → A → Settled → Run A → Run A
  reported p x o r =
      report items (count items x o (record r { in_flight = remove_at p r.in_flight }))

  pub reported-IsQueue :
      (p : ℕ) (x : A) (o : Settled) (r : Run A)
      → get_elem? r.in_flight p ≡ some x
      → IsQueue r
      → IsQueue (reported p x o r)
  unfolding report count
  reported-IsQueue p x fulfilled r e q = record {
    called = q.called;
    flying = omega (arith, q.flying, length-remove_at p r.in_flight x e);
  }
  reported-IsQueue p x (rejected t) r e q = record {
    called = q.called;
    flying = omega (arith, q.flying, length-remove_at p r.in_flight x e);
  }

  module _ (p : ℕ) (x : A) (h : List (A × Settled)) (r : Run A)
      (e : get_elem? r.in_flight p ≡ some x) (q : IsResult h r) where
    accounted_after :
        Perm (x ∷ (map (λ (s : A × Settled). s.0) h ++ remove_at p r.in_flight)) r.called
    accounted_after =
        Perm.trans
          (Perm.symm (perm_middle (map (λ (s : A × Settled). s.0) h) (remove_at p r.in_flight)))
          (Perm.trans
            (Perm.append_left (map (λ (s : A × Settled). s.0) h)
              (Perm.symm (remove_at-perm p r.in_flight x e)))
            q.accounted)

    progress_after : r.progress ++ (suc r.settled, length items) ∷ [] ≡ progress_to (suc (length h))
    progress_after = rw (q.progress, q.settled)

    pub reported-IsResult : (o : Settled) → IsResult ((x, o) ∷ h) (reported p x o r)
    unfolding report count
    reported-IsResult fulfilled = record {
      succeeded = ap suc q.succeeded;
      failed = q.failed;
      settled = ap suc q.settled;
      progress = progress_after;
      accounted = accounted_after;
    }
    reported-IsResult (rejected t) = record {
      succeeded = q.succeeded;
      failed = ap (λ fs. fs ++ record { item = x; error = message_of t } ∷ []) q.failed;
      settled = ap suc q.settled;
      progress = progress_after;
      accounted = accounted_after;
    }

  pub launch-IsQueue : (n : ℕ) (r : Run A) → IsQueue r → IsQueue (launch items n r)
  unfolding launch
  launch-IsQueue zero r q = q
  launch-IsQueue (suc n) r q = launch-IsQueue n (next items r) (next-IsQueue r q)

  pub launch-IsResult :
      (n : ℕ) (h : List (A × Settled)) (r : Run A) → IsResult h r → IsResult h (launch items n r)
  unfolding launch
  launch-IsResult zero h r q = q
  launch-IsResult (suc n) h r q = launch-IsResult n h (next items r) (next-IsResult h r q)

  pub next_busy :
      (r : Run A)
      → r.index < length items
      → (length (next items r).in_flight ≡ suc (length r.in_flight))
        × ((next items r).index ≡ suc r.index)
  unfolding next
  next_busy r lt = elim (Option-cases (get_elem? items r.index)) [
    | inl e ↦ absurd (omega (arith, get_elem?_above r.index items e))
    | inr (x, e) ↦ rw (e, next) (omega (arith, length-append r.in_flight (x ∷ [])), refl)
  ]

  -- Each launched worker takes an item while there are enough.
  pub launch_busy :
      (n : ℕ) (r : Run A)
      → r.index + n ≤ length items
      → length (launch items n r).in_flight ≡ length r.in_flight + n
  unfolding launch
  launch_busy zero r h = omega arith
  launch_busy (suc n) r h =
      let (more, on) = next_busy r (omega arith) in
      omega (arith, more, launch_busy n (next items r) (omega arith))

  pub next-IsBusy :
      (n : ℕ) (r : Run A)
      → suc (length r.in_flight) ≤ n
      → (r.index < length items → suc (length r.in_flight) ≡ n)
      → IsBusy n (next items r)
  unfolding next
  next-IsBusy n r h k = elim (Option-cases (get_elem? items r.index)) [
    | inl e ↦
        rw (e, next) (omega arith, λ lt. absurd (omega (arith, get_elem?_above r.index items e)))
    | inr (x, e) ↦
        rw (e, next)
          (
            omega (arith, length-append r.in_flight (x ∷ [])),
            λ lt.
                omega (
                  arith,
                  length-append r.in_flight (x ∷ []),
                  k (get_elem?_below r.index items x e),
                ),
          )
  ]

  pub reported-IsBusy :
      (n : ℕ) (p : ℕ) (x : A) (o : Settled) (r : Run A)
      → get_elem? r.in_flight p ≡ some x
      → IsBusy n r
      → IsBusy n (next items (reported p x o r))
  unfolding report count
  reported-IsBusy n p x fulfilled r e (most, all) =
      next-IsBusy n _ (omega (arith, length-remove_at p r.in_flight x e))
        λ lt. omega (arith, length-remove_at p r.in_flight x e, all lt)
  reported-IsBusy n p x (rejected t) r e (most, all) =
      next-IsBusy n _ (omega (arith, length-remove_at p r.in_flight x e))
        λ lt. omega (arith, length-remove_at p r.in_flight x e, all lt)

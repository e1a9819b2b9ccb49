-- ===== src/Api/Fetch/DataLaws.antt =====
-- What a successful request hands to its caller.
use mathlib.Core.List.{Memᴰ}
use ldapwarden.Prelude.{
  ◌==◌, Bool-cases, JsString, ℕ, ◌+◌, ◌≤◌, ◌<◌, ◌≡◌, refl, sym, ap, ◌∙◌, ◌⊎◌, inl, inr, Bool, true,
  false, ◌&&◌, Option, none, some, List, [], ◌∷◌, arith,
}
use ldapwarden.Values.{Value}
use ldapwarden.Api.Schema.{Schema}
use ldapwarden.Api.Fetch.{
  checked, parse_response, Failure, abort_error, Result, fulfilled, rejected, Phase, sending,
  reading, reading_error, finished, Event, timeout, caller_aborts, answered, fails, data_read,
  not_json, is_ok, conclude, on_abort, on_answer, step, run, exchange,
}
use ldapwarden.Api.Fetch.Laws.{at, steps, run-finished}

-- An answer that is a success: a status from 200 to 299.
abbrev pub IsSuccess : Event → Type 0
IsSuccess (answered status) = (200 ≤ status) × (status < 300)
IsSuccess _ = ⊥

-- The data has been read after such an answer.
abbrev pub IsReadAfter : Value → List Event → Type 0
IsReadAfter w [] = ⊥
IsReadAfter w (e ∷ es) = (IsSuccess e × Memᴰ (data_read w) es) ⊎ IsReadAfter w es

pub fulfilled-injective : {u v : Value} → fulfilled u ≡ fulfilled v → u ≡ v
fulfilled-injective h = ground arith

module _ (safe_parse : Schema → Value → Option Value) where
  -- What is handed over of the data: what the validation returns if there is a schema.
  abbrev pub IsReturned : Option Schema → Value → Value → Type 0
  IsReturned none w v = v ≡ w
  IsReturned (some s) w v = safe_parse s w ≡ some v

  -- A success has its data from one of the given.
  abbrev pub HasData : Option Schema → (Value → Type 0) → Phase → Type 0
  HasData schema Read (finished (fulfilled v)) = (w : Value) × Read w × IsReturned schema w v
  HasData schema Read _ = Unit {0}

  abbrev pub Origin : Option Schema → List Event → Phase → Type 0
  Origin schema es = HasData schema (λ w. IsReadAfter w es)

module _ (safe_parse : Schema → Value → Option Value) (shown : Value → JsString) (signed : Bool)
    (schema : Option Schema) where
  HasData-weaken :
      (P Q : Value → Type 0) (p : Phase)
      → ((w : Value) → P w → Q w)
      → HasData safe_parse schema P p
      → HasData safe_parse schema Q p
  HasData-weaken P Q (finished (fulfilled v)) f (w, h, r) = (w, f w h, r)
  HasData-weaken P Q (finished (rejected f)) _ h = tt
  HasData-weaken P Q sending _ h = tt
  HasData-weaken P Q reading _ h = tt
  HasData-weaken P Q (reading_error s) _ h = tt

  -- Where a run ends with a success from a phase, its data is one of the given.
  abbrev RunData : (Value → Type 0) → Phase → Bool → ℕ → List Event → Type 0
  RunData Read p t n es =
      HasData safe_parse schema Read (steps safe_parse shown signed schema (at p t n) es).phase

  ended :
      (Read : Value → Type 0) (f : Failure) (t : Bool) (n : ℕ) (es : List Event)
      → RunData Read (finished (rejected f)) t n es
  ended Read f t n es = rw (run-finished safe_parse shown signed schema (rejected f) t n es) tt

  concluded :
      (Read : Value → Type 0) (w : Value) (r : Result)
      → Read w
      → conclude safe_parse shown schema w ≡ r
      → HasData safe_parse schema Read (finished r)
  unfolding conclude parse_response
  concluded Read w (rejected f) m e = tt
  concluded Read w (fulfilled v) m e = by_schema schema refl
    where
      by_answer :
          (s : Schema) (o : Option Value)
          → safe_parse s w ≡ o
          → checked o ≡ fulfilled v
          → safe_parse s w ≡ some v
      by_answer s none k h = cc
      by_answer s (some u) k h = k ∙ ap (λ (x : Value). some x) (fulfilled-injective h)

      by_schema :
          (o : Option Schema) → schema ≡ o → HasData safe_parse schema Read (finished (fulfilled v))
      by_schema none k = (w, m, rw k (sym (fulfilled-injective (rw k at e))))
      by_schema (some s) k = (w, m, rw k (by_answer s (safe_parse s w) refl (rw k at e)))

  -- While the data is awaited, and while that of an error answer is.
  abbrev Waits : Bool → ℕ → List Event → Type 0
  Waits t n es =
      RunData (λ w. Memᴰ (data_read w) es) reading t n es
      × ((s : ℕ) → RunData (λ w. ⊥) (reading_error s) t n es)

  Waits-cons :
      (e : Event) (t : Bool) (n : ℕ) (es : List Event)
      → RunData (λ w. Memᴰ (data_read w) es) reading t n es
      → RunData (λ w. Memᴰ (data_read w) (e ∷ es)) reading t n es
  Waits-cons e t n es h = HasData-weaken _ _ _ (λ w m. Memᴰ.tail m) h

  run-Waits : (t : Bool) (n : ℕ) (es : List Event) → Waits t n es
  unfolding run step on_abort
  run-Waits t n [] = (tt, λ s. tt)
  run-Waits t n (timeout ∷ es) = (ended _ _ true n es, λ s. ended _ _ true n es)
  run-Waits t n (caller_aborts ∷ es) = (ended _ _ t n es, λ s. ended _ _ t n es)
  run-Waits t n (answered status ∷ es) =
      let rest = run-Waits t n es in (Waits-cons _ t n es rest.0, rest.1)
  run-Waits t n (fails m ∷ es) = (ended _ _ t n es, λ s. ended _ _ t n es)
  run-Waits t n (data_read v ∷ es) = (
    rw (run-finished safe_parse shown signed schema (conclude safe_parse shown schema v) t n es)
        (concluded _ v _ (Memᴰ.head refl) refl),
    λ s. ended _ _ t n es,
  )
  run-Waits t n (not_json m ∷ es) = (ended _ _ t n es, λ s. ended _ _ t n es)

  is_ok-IsSuccess : (status : ℕ) → is_ok status ≡ true → IsSuccess (answered status)
  is_ok-IsSuccess status h = ground arith

  answer-Origin :
      (status : ℕ) (t : Bool) (n : ℕ) (es : List Event)
      → HasData safe_parse schema
          (λ w. IsReadAfter w (answered status ∷ es))
          (steps safe_parse shown signed schema
            (on_answer safe_parse shown signed status (at sending t n))
            es).phase
  unfolding on_answer
  answer-Origin status t n es =
      let (waits, refused) = run-Waits t n es in
      elim (Bool-cases (is_ok status)) [
        | inl ok ↦ rw ok (HasData-weaken _ _ _ (λ w m. inl (is_ok-IsSuccess status ok, m)) waits)
        | inr bad ↦ elim (Bool-cases (signed && status == 401)) [
          | inl lost ↦ rw (bad, lost) (ended _ _ t (n + 1) es)
          | inr kept ↦ rw (bad, kept) (HasData-weaken _ _ _ (λ w m. absurd m) (refused status))
        ]
      ]

  run-Origin : (t : Bool) (n : ℕ) (es : List Event) → RunData (λ w. IsReadAfter w es) sending t n es
  unfolding run step on_abort
  run-Origin t n [] = tt
  run-Origin t n (timeout ∷ es) = ended _ _ true n es
  run-Origin t n (caller_aborts ∷ es) = ended _ _ t n es
  run-Origin t n (answered status ∷ es) = answer-Origin status t n es
  run-Origin t n (fails m ∷ es) = ended _ _ t n es
  run-Origin t n (data_read v ∷ es) = HasData-weaken _ _ _ (λ w m. inr m) (run-Origin t n es)
  run-Origin t n (not_json m ∷ es) = HasData-weaken _ _ _ (λ w m. inr m) (run-Origin t n es)

  -- A request succeeds only with data that was read after an answer with a status from 200 to 299:
  -- with what the validation returns for it where the request has a schema, and with the data itself
  -- where it has none.
  pub exchange-Origin :
      (aborted : Bool) (es : List Event)
      → Origin safe_parse schema es (exchange safe_parse shown signed schema aborted es).phase
  unfolding exchange on_abort
  exchange-Origin true es = ended _ abort_error false 0 es
  exchange-Origin false es = run-Origin false 0 es

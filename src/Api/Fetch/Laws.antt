-- ===== src/Api/Fetch/Laws.antt =====
-- What a caller of the request functions can rely on.
use mathlib.Core.Bool.{false≢true}
use mathlib.Core.List.{Memᴰ}
use ldapwarden.Prelude.{
  ◌==◌, Bool-cases, JsString, text, ℕ, ◌≡◌, refl, sym, ap, subst, inl, inr, Bool, true, false, ◌&&◌,
  Option, List, [], ◌∷◌, ◌++◌,
}
use ldapwarden.Values.{Value}
use ldapwarden.Api.Schema.{Schema}
use ldapwarden.Api.Fetch.{
  api_error, abort_error, Result, rejected, Phase, sending, reading, reading_error, finished,
  Exchange, Event, timeout, caller_aborts, answered, fails, data_read, not_json, is_ok, on_abort,
  on_answer, step, run, exchange,
}

abbrev pub is_finished : Phase → Bool
is_finished (finished r) = true
is_finished _ = false

-- Waiting for the answer or for its data.
abbrev pub is_open : Phase → Bool
is_open sending = true
is_open reading = true
is_open _ = false

abbrev pub at : Phase → Bool → ℕ → Exchange
at p t n = record { phase = p; timed_out = t; auth_errors = n }

module _ (safe_parse : Schema → Value → Option Value) (shown : Value → JsString) (signed : Bool)
    (schema : Option Schema) where
  abbrev pub steps : Exchange → List Event → Exchange
  steps = run safe_parse shown signed schema

  pub run-finished :
      (r : Result) (t : Bool) (n : ℕ) (es : List Event)
      → steps (at (finished r) t n) es ≡ at (finished r) t n
  unfolding run step
  run-finished r t n [] = refl
  run-finished r t n (e ∷ es) = run-finished r t n es

  finishes :
      (p : Phase) (t : Bool) (n : ℕ) (es : List Event)
      → is_finished p ≡ true
      → is_finished (steps (at p t n) es).phase ≡ true
  finishes (finished r) t n es h = rw (run-finished r t n es) refl
  finishes sending t n es h = cc
  finishes reading t n es h = cc
  finishes (reading_error s) t n es h = cc

  step-timeout :
      (p : Phase) (t : Bool) (n : ℕ)
      → is_finished (step safe_parse shown signed schema (at p t n) timeout).phase ≡ true
  unfolding step on_abort
  step-timeout sending t n = refl
  step-timeout reading t n = refl
  step-timeout (reading_error s) t n = refl
  step-timeout (finished r) t n = refl

  run-timeout :
      (x : Exchange) (es : List Event) → Memᴰ timeout es → is_finished (steps x es).phase ≡ true
  unfolding run
  run-timeout x [] m = elim m [ ]
  run-timeout x (e ∷ es) (Memᴰ.head h) =
      let y : Exchange = step safe_parse shown signed schema x e in
      finishes y.phase y.timed_out y.auth_errors es (
        subst (λ f. is_finished (step safe_parse shown signed schema x f).phase ≡ true) h
          (step-timeout x.phase x.timed_out x.auth_errors))
  run-timeout x (e ∷ es) (Memᴰ.tail m) = run-timeout (step safe_parse shown signed schema x e) es m

  -- A request never hangs: once its timer has run out, it has ended, whatever else happened.
  pub exchange-timeout :
      (aborted : Bool) (es : List Event)
      → Memᴰ timeout es
      → is_finished (exchange safe_parse shown signed schema aborted es).phase ≡ true
  unfolding exchange
  exchange-timeout aborted es m = run-timeout _ es m

  -- Until a request has ended its timer has not run out.
  IsWaiting : Exchange → Type 0
  IsWaiting x = is_finished x.phase ≡ false → x.timed_out ≡ false

  on_answer-IsWaiting :
      (status : ℕ) (n : ℕ)
      → IsWaiting (on_answer safe_parse shown signed status (at sending false n))
  unfolding on_answer IsWaiting
  on_answer-IsWaiting status n = elim (Bool-cases (is_ok status)) [
    | inl ok ↦ rw ok (λ h. refl)
    | inr bad ↦ elim (Bool-cases (signed && status == 401)) [
      | inl lost ↦ rw (bad, lost) (λ h. refl)
      | inr kept ↦ rw (bad, kept) (λ h. refl)
    ]
  ]

  step-IsWaiting :
      (p : Phase) (n : ℕ) (e : Event)
      → IsWaiting (step safe_parse shown signed schema (at p false n) e)
  unfolding step on_abort IsWaiting
  step-IsWaiting (finished r) n e = λ h. cc
  step-IsWaiting sending n (answered status) = on_answer-IsWaiting status n
  step-IsWaiting sending n timeout = λ h. cc
  step-IsWaiting sending n caller_aborts = λ h. cc
  step-IsWaiting sending n (fails m) = λ h. refl
  step-IsWaiting sending n (data_read v) = λ h. refl
  step-IsWaiting sending n (not_json m) = λ h. refl
  step-IsWaiting reading n timeout = λ h. cc
  step-IsWaiting reading n caller_aborts = λ h. cc
  step-IsWaiting reading n (answered s) = λ h. refl
  step-IsWaiting reading n (fails m) = λ h. refl
  step-IsWaiting reading n (data_read v) = λ h. refl
  step-IsWaiting reading n (not_json m) = λ h. refl
  step-IsWaiting (reading_error s) n timeout = λ h. cc
  step-IsWaiting (reading_error s) n caller_aborts = λ h. cc
  step-IsWaiting (reading_error s) n (answered a) = λ h. refl
  step-IsWaiting (reading_error s) n (fails m) = λ h. refl
  step-IsWaiting (reading_error s) n (data_read v) = λ h. refl
  step-IsWaiting (reading_error s) n (not_json m) = λ h. refl

  step-IsWaiting-IsWaiting :
      (p : Phase) (t : Bool) (n : ℕ) (e : Event)
      → IsWaiting (at p t n)
      → IsWaiting (step safe_parse shown signed schema (at p t n) e)
  unfolding step IsWaiting
  step-IsWaiting-IsWaiting p false n e h = step-IsWaiting p n e
  step-IsWaiting-IsWaiting (finished r) true n e h = λ k. cc
  step-IsWaiting-IsWaiting sending true n e h = absurd (false≢true (sym (h refl)))
  step-IsWaiting-IsWaiting reading true n e h = absurd (false≢true (sym (h refl)))
  step-IsWaiting-IsWaiting (reading_error s) true n e h = absurd (false≢true (sym (h refl)))

  run-IsWaiting : (x : Exchange) (es : List Event) → IsWaiting x → IsWaiting (steps x es)
  unfolding run
  run-IsWaiting x [] h = h
  run-IsWaiting x (e ∷ es) h =
      run-IsWaiting (step safe_parse shown signed schema x e) es
        (step-IsWaiting-IsWaiting x.phase x.timed_out x.auth_errors e h)

  run-append : (x : Exchange) (es fs : List Event) → steps x (es ++ fs) ≡ steps (steps x es) fs
  unfolding run
  run-append x [] fs = refl
  run-append x (e ∷ es) fs = run-append (step safe_parse shown signed schema x e) es fs

  stops :
      (p : Phase) (t : Bool) (n : ℕ) (es : List Event)
      → is_open p ≡ true
      → IsWaiting (at p t n)
      → ((steps (at p t n) (caller_aborts ∷ es)).phase ≡ finished (rejected abort_error))
        × ((steps (at p t n) (timeout ∷ es)).phase
            ≡ finished (rejected (api_error 0 (text "Request timed out"))))
  unfolding run step on_abort IsWaiting
  stops sending t n es o h =
      let e : t ≡ false = h refl in
      rw e (
        ap (λ (x : Exchange). x.phase) (run-finished _ _ n es),
        ap (λ (x : Exchange). x.phase) (run-finished _ _ n es),
      )
  stops reading t n es o h =
      let e : t ≡ false = h refl in
      rw e (
        ap (λ (x : Exchange). x.phase) (run-finished _ _ n es),
        ap (λ (x : Exchange). x.phase) (run-finished _ _ n es),
      )
  stops (reading_error s) t n es o h = cc
  stops (finished r) t n es o h = cc

  fresh-IsWaiting : IsWaiting (at sending false 0)
  unfolding IsWaiting
  fresh-IsWaiting = λ h. refl

  -- As long as a request waits for its answer or its data, a cancellation by the caller reaches the
  -- caller as the browser's AbortError, and only the request's own timer as a failure of the API;
  -- whatever comes later changes nothing.
  pub exchange-stops :
      (pre post : List Event)
      → is_open (exchange safe_parse shown signed schema false pre).phase ≡ true
      → ((exchange safe_parse shown signed schema false (pre ++ caller_aborts ∷ post)).phase
          ≡ finished (rejected abort_error))
        × ((exchange safe_parse shown signed schema false (pre ++ timeout ∷ post)).phase
            ≡ finished (rejected (api_error 0 (text "Request timed out"))))
  unfolding exchange
  exchange-stops pre post o =
      rw (run-append _ pre (caller_aborts ∷ post), run-append _ pre (timeout ∷ post))
        (stops _ _ _ post o (run-IsWaiting _ pre fresh-IsWaiting))

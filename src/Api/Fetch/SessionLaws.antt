-- ===== src/Api/Fetch/SessionLaws.antt =====
-- When a request reports that the session is gone, and what a success carries.
use ldapwarden.Prelude.{
  ◌==◌, if◌then◌else◌, Bool-cases, JsString, text, ℕ, ◌≡◌, refl, sym, ◌∙◌, inl, inr, Bool, true,
  false, not, Option, none, some, List, [], ◌∷◌, arith,
}
use ldapwarden.Values.{Value}
use ldapwarden.Api.Schema.{Schema}
use ldapwarden.Api.Fetch.{
  api_error, abort_error, rejected, Phase, sending, reading, reading_error, finished, Exchange,
  Event, timeout, caller_aborts, answered, fails, data_read, not_json, is_ok, checked,
  parse_response, conclude, error_answer, on_abort, on_answer, step, run, exchange,
}
use ldapwarden.Api.Fetch.Laws.{at}

-- The failures that say so.
abbrev pub sessions_lost : Phase → ℕ
sessions_lost (finished (rejected (api_error status m))) = if status == 401 then 1 else 0
sessions_lost _ = 0

-- A wait for the data of an error answer is no wait for that of a 401.
abbrev is_other : Phase → Bool
is_other (reading_error status) = not (status == 401)
is_other _ = true

module _ (safe_parse : Schema → Value → Option Value) (shown : Value → JsString)
    (schema : Option Schema) where
  Ledger : Exchange → Type 0
  Ledger x = (x.auth_errors ≡ sessions_lost x.phase) × (is_other x.phase ≡ true)

  conclude-lost : (v : Value) → sessions_lost (finished (conclude safe_parse shown schema v)) ≡ 0
  unfolding conclude parse_response
  conclude-lost v = by_schema schema
    where
      parsed : (q : Option Value) → sessions_lost (finished (checked q)) ≡ 0
      parsed none = refl
      parsed (some w) = refl

      by_schema : (o : Option Schema) → sessions_lost (finished (conclude safe_parse shown o v)) ≡ 0
      by_schema none = refl
      by_schema (some o) = parsed (safe_parse o v)

  error_answer-lost :
      (status : ℕ) (v : Value)
      → (status == 401) ≡ false
      → sessions_lost (finished (rejected (error_answer safe_parse shown status v))) ≡ 0
  unfolding error_answer
  error_answer-lost status Value.null h = refl
  error_answer-lost status Value.undefined h = rw h refl
  error_answer-lost status (Value.boolean b) h = rw h refl
  error_answer-lost status (Value.number n) h = rw h refl
  error_answer-lost status (Value.string t) h = rw h refl
  error_answer-lost status (Value.array vs) h = rw h refl
  error_answer-lost status (Value.object fs) h = rw h refl

  on_answer-Ledger :
      (status : ℕ) (t : Bool) → Ledger (on_answer safe_parse shown true status (at sending t 0))
  unfolding on_answer Ledger
  on_answer-Ledger status t = elim (Bool-cases (is_ok status)) [
    | inl ok ↦ rw ok (refl, refl)
    | inr bad ↦ elim (Bool-cases (status == 401)) [
      | inl lost ↦ rw (bad, lost) (refl, refl)
      | inr kept ↦ rw (bad, kept) (refl, rw kept refl)
    ]
  ]

  aborted-lost :
      (t : Bool)
      → sessions_lost
          (finished (rejected (if t then api_error 0 (text "Request timed out") else abort_error)))
        ≡ 0
  aborted-lost true = refl
  aborted-lost false = refl

  step-Ledger :
      (p : Phase) (t : Bool) (n : ℕ) (e : Event)
      → Ledger (at p t n)
      → Ledger (step safe_parse shown true schema (at p t n) e)
  unfolding step on_abort Ledger
  step-Ledger (finished r) t n e h = h
  step-Ledger sending t n timeout (h, k) = (h, refl)
  step-Ledger sending t n caller_aborts (h, k) = (h ∙ sym (aborted-lost t), refl)
  step-Ledger sending t n (answered status) (h, k) = rw h (on_answer-Ledger status t)
  step-Ledger sending t n (fails m) h = h
  step-Ledger sending t n (data_read v) h = h
  step-Ledger sending t n (not_json m) h = h
  step-Ledger reading t n timeout (h, k) = (h, refl)
  step-Ledger reading t n caller_aborts (h, k) = (h ∙ sym (aborted-lost t), refl)
  step-Ledger reading t n (answered status) h = h
  step-Ledger reading t n (fails m) h = h
  step-Ledger reading t n (data_read v) (h, k) = (h ∙ sym (conclude-lost v), refl)
  step-Ledger reading t n (not_json m) h = h
  step-Ledger (reading_error s) t n (data_read v) (h, k) =
      (h ∙ sym (error_answer-lost s v (ground arith)), refl)
  step-Ledger (reading_error s) t n (answered status) h = h
  step-Ledger (reading_error s) t n timeout (h, k) =
      let e : (s == 401) ≡ false = ground arith in rw e (h, refl)
  step-Ledger (reading_error s) t n caller_aborts (h, k) =
      let e : (s == 401) ≡ false = ground arith in rw e (h, refl)
  step-Ledger (reading_error s) t n (fails m) (h, k) =
      let e : (s == 401) ≡ false = ground arith in rw e (h, refl)
  step-Ledger (reading_error s) t n (not_json m) (h, k) =
      let e : (s == 401) ≡ false = ground arith in rw e (h, refl)

  run-Ledger :
      (x : Exchange) (es : List Event) → Ledger x → Ledger (run safe_parse shown true schema x es)
  unfolding run
  run-Ledger x [] h = h
  run-Ledger x (e ∷ es) h =
      run-Ledger (step safe_parse shown true schema x e) es
        (step-Ledger x.phase x.timed_out x.auth_errors e h)

  fresh-Ledger : Ledger (at sending false 0)
  unfolding Ledger
  fresh-Ledger = (refl, refl)

  aborted-Ledger : Ledger (on_abort safe_parse shown (at sending false 0))
  unfolding Ledger on_abort
  aborted-Ledger = (refl, refl)

  -- The callback for a lost session is called exactly once where a request of fetchApi fails with
  -- a 401, and never otherwise: no other failure, time-out or cancellation signs anybody out.
  pub exchange-sessions_lost :
      (aborted : Bool) (es : List Event)
      → (exchange safe_parse shown true schema aborted es).auth_errors
        ≡ sessions_lost (exchange safe_parse shown true schema aborted es).phase
  unfolding exchange Ledger
  exchange-sessions_lost true es = (run-Ledger _ es aborted-Ledger).0
  exchange-sessions_lost false es = (run-Ledger _ es fresh-Ledger).0

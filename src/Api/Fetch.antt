-- ===== src/Api/Fetch.antt =====
-- `fetchApi` and `fetchApiPublic` of web/src/lib/api.ts: one request, from its start to its end,
-- as the steps between which JavaScript waits. The browser's `fetch`, the timer and the caller's
-- signal are the events.
use ldapwarden.Prelude.{
  ltb, leb, ◌==◌, if◌then◌else◌, JsString, text, is_empty, ℕ, ◌+◌, Bool, true, false, not, ◌&&◌,
  Option, none, some, List, [], ◌∷◌, ◌++◌,
}
use ldapwarden.Values.{Value, undefined, null, boolean, number, string, object, get, whole, nan}
use ldapwarden.Api.Schema.{Schema}
pub mod Laws
pub mod SessionLaws
pub mod DataLaws
pub mod TypeLaws
mod Tests

-- What the promise is rejected with. `AbortError` is the browser's; any other error of the browser
-- or the language has its message.
pub data Failure : Type 0 where
  api_error : ℕ → JsString → Failure
  abort_error : Failure
  other_error : JsString → Failure

pub data Result : Type 0 where
  fulfilled : Value → Result
  rejected : Failure → Result

-- What the code awaits: the response, its data, or the data of an error answer.
pub data Phase : Type 0 where
  sending reading : Phase
  reading_error : ℕ → Phase
  finished : Result → Phase

-- `auth_errors` counts the calls of the callback given to `setOnAuthError`.
pub record Exchange : Type 0 where
  pub phase : Phase
  pub timed_out : Bool
  pub auth_errors : ℕ

pub data Event : Type 0 where
  -- The timer of FETCH_TIMEOUT_MS runs out, or the caller's signal is aborted.
  timeout caller_aborts : Event
  -- `fetch` answers with a status, or fails.
  answered : ℕ → Event
  fails : JsString → Event
  -- The answer's data has been read, or is no JSON.
  data_read : Value → Event
  not_json : JsString → Event

-- `response.ok`.
abbrev pub is_ok : ℕ → Bool
is_ok status = leb 200 status && ltb status 300

abbrev pub incomprehensible : JsString
incomprehensible =
    text "The server sent something this version of the app does not understand. "
    ++ text "It may have been updated — reload the page, and report it if it persists."

abbrev pub finish : Result → Exchange → Exchange
finish r x = record x { phase = finished r }

-- `error || 'Request failed'` for a value that is no text.
abbrev is_falsy : Value → Bool
is_falsy undefined = true
is_falsy null = true
is_falsy (boolean b) = not b
is_falsy (number (whole n)) = n == 0
is_falsy (number nan) = true
is_falsy (string s) = is_empty s
is_falsy _ = false

abbrev fresh : Exchange
fresh = record { phase = sending; timed_out = false; auth_errors = 0 }

-- What `parseResponse` makes of the answer of `safeParse`.
abbrev pub checked : Option Value → Result
checked (some v) = fulfilled v
checked none = rejected (api_error 0 incomprehensible)

module _ (safe_parse : Schema → Value → Option Value) (shown : Value → JsString) where
  -- `parseResponse`.
  unfoldable pub parse_response : Schema → Value → Result
  parse_response schema value = checked (safe_parse schema value)

  unfoldable pub conclude : Option Schema → Value → Result
  conclude none value = fulfilled value
  conclude (some schema) value = parse_response schema value

  abbrev error_text : Value → JsString
  error_text (string s) = s
  error_text v = shown v

  -- `new ApiError(status, error.error || 'Request failed')`. Reading a field of `null` is an error
  -- of the language; only a text or a list has no field `error` otherwise.
  unfoldable pub error_message : Value → JsString
  error_message (object fs) =
      if is_falsy (get (text "error") fs)
      then text "Request failed"
      else error_text (get (text "error") fs)
  error_message _ = text "Request failed"

  unfoldable pub error_answer : ℕ → Value → Failure
  error_answer status null = other_error (text "Cannot read properties of null (reading 'error')")
  error_answer status value = api_error status (error_message value)

  -- An aborted wait: the data of an error answer falls back to `{ error: 'Unknown error' }`, and
  -- any other wait throws an `AbortError` into the `catch` block.
  unfoldable pub on_abort : Exchange → Exchange
  on_abort x = elim x.phase [
    | finished r ↦ x
    | reading_error status ↦ finish (rejected (api_error status (text "Unknown error"))) x
    | sending ↦
        finish
          (rejected (if x.timed_out then api_error 0 (text "Request timed out") else abort_error)) x
    | reading ↦
        finish
          (rejected (if x.timed_out then api_error 0 (text "Request timed out") else abort_error)) x
  ]

  -- The answer's head; `signed` tells `fetchApi` from `fetchApiPublic`.
  unfoldable pub on_answer : Bool → ℕ → Exchange → Exchange
  on_answer signed status x =
      if is_ok status
      then record x { phase = reading }
      else if signed && status == 401
      then finish (rejected (api_error 401 (text "Session expired")))
          (record x { auth_errors = x.auth_errors + 1 })
      else record x { phase = reading_error status }

  module _ (signed : Bool) (schema : Option Schema) where
    -- After the end the timer is cleared and the signal is no longer listened to for anything.
    unfoldable pub step : Exchange → Event → Exchange
    step x e = elim x.phase [
      | finished r ↦ x
      | sending ↦ elim e [
        | timeout ↦ on_abort (record x { timed_out = true })
        | caller_aborts ↦ on_abort x
        | answered status ↦ on_answer signed status x
        | fails message ↦ finish (rejected (other_error message)) x
        | data_read v ↦ x
        | not_json message ↦ x
      ]
      | reading ↦ elim e [
        | timeout ↦ on_abort (record x { timed_out = true })
        | caller_aborts ↦ on_abort x
        | answered status ↦ x
        | fails message ↦ finish (rejected (other_error message)) x
        | data_read v ↦ finish (conclude schema v) x
        | not_json message ↦ finish (rejected (other_error message)) x
      ]
      | reading_error status ↦ elim e [
        | timeout ↦ on_abort (record x { timed_out = true })
        | caller_aborts ↦ on_abort x
        | answered again ↦ x
        | fails message ↦ finish (rejected (api_error status (text "Unknown error"))) x
        | data_read v ↦ finish (rejected (error_answer status v)) x
        | not_json message ↦ finish (rejected (api_error status (text "Unknown error"))) x
      ]
    ]

    unfoldable pub run : Exchange → List Event → Exchange
    run x [] = x
    run x (e ∷ es) = run (step x e) es

  -- A signal that is aborted already makes `fetch` fail at once.
  unfoldable pub exchange : Bool → Option Schema → Bool → List Event → Exchange
  exchange signed schema aborted es =
      run signed schema (if aborted then on_abort fresh else fresh) es

  -- `fetchApi` and `fetchApiPublic`.
  abbrev pub fetch_api : Option Schema → Bool → List Event → Exchange
  fetch_api = exchange true

  abbrev pub fetch_api_public : Option Schema → Bool → List Event → Exchange
  fetch_api_public = exchange false

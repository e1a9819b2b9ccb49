-- ===== src/Api/Fetch/Tests.antt =====
-- The theorems on requests at concrete runs.
use mathlib.Core.List.{Memᴰ}
use ldapwarden.Prelude.{
  some-injective, JsString, text, ◌===◌, ◌≡◌, refl, subst, true, false, Option, none, some, [], ◌∷◌,
}
use ldapwarden.Values.{Value, undefined, string, object, get, field, end}
use ldapwarden.Api.Schema.{Schema, object_of, shape_of}
use ldapwarden.Api.Fetch.{
  timeout, caller_aborts, answered, data_read, exchange, run, step, on_answer, conclude,
  parse_response, fulfilled, finished, rejected, abort_error, api_error,
}
use ldapwarden.Api.Fetch.Laws.{is_finished, is_open, exchange-timeout, exchange-stops}
use ldapwarden.Api.Fetch.SessionLaws.{sessions_lost, exchange-sessions_lost}
use ldapwarden.Api.Fetch.TypeLaws.{perform, perform-Conforms}
use ldapwarden.Api.Schema.Types.{Conforms}
use ldapwarden.Api.Schemas.Auth.{me_avatar_schema}
use ldapwarden.Api.Calls.Users.{avatar, auth_request}
use ldapwarden.Api.Fetch.DataLaws.{Origin, exchange-Origin}

-- A validation that lets every value through, and a printed form.
abbrev accept : Schema → Value → Option Value
accept s v = some v

abbrev shown : Value → JsString
shown v = text "?"

exchange-timeout_example :
    is_finished (exchange accept shown true none false (answered 200 ∷ timeout ∷ [])).phase ≡ true
exchange-timeout_example =
    exchange-timeout accept shown true none false (answered 200 ∷ timeout ∷ [])
      (Memᴰ.tail (Memᴰ.head refl))

answered_open : is_open (exchange accept shown true none false (answered 200 ∷ [])).phase ≡ true
unfolding exchange run step on_answer
answered_open = refl

exchange-stops_example :
    ((exchange accept shown true none false (answered 200 ∷ caller_aborts ∷ timeout ∷ [])).phase
      ≡ finished (rejected abort_error))
    × ((exchange accept shown true none false (answered 200 ∷ timeout ∷ timeout ∷ [])).phase
        ≡ finished (rejected (api_error 0 (text "Request timed out"))))
exchange-stops_example =
    exchange-stops accept shown true none (answered 200 ∷ []) (timeout ∷ []) answered_open

exchange-sessions_lost_example :
    (exchange accept shown true none false (answered 401 ∷ timeout ∷ [])).auth_errors
    ≡ sessions_lost (exchange accept shown true none false (answered 401 ∷ timeout ∷ [])).phase
exchange-sessions_lost_example =
    exchange-sessions_lost accept shown none false (answered 401 ∷ timeout ∷ [])

exchange-Origin_example :
    Origin accept none
      (answered 200 ∷ data_read (string (text "ok")) ∷ [])
      (exchange accept shown true none false
        (answered 200 ∷ data_read (string (text "ok")) ∷ [])).phase
exchange-Origin_example =
    exchange-Origin accept shown true none false
      (answered 200 ∷ data_read (string (text "ok")) ∷ [])

-- A validation for the schema of a picture: of an object it keeps the picture, a text or nothing.
abbrev picture_of : Value → Option Value
picture_of (string s) = some (object (field (text "jpegPhoto") (string s) end))
picture_of undefined = some (object end)
picture_of _ = none

abbrev parse_avatar : Schema → Value → Option Value
parse_avatar s (object fs) = picture_of (get (text "jpegPhoto") fs)
parse_avatar s _ = none

picture-Conforms : (w v : Value) → picture_of w ≡ some v → Conforms me_avatar_schema v
unfolding get ◌===◌ object_of shape_of
picture-Conforms (string s) v h = subst (Conforms me_avatar_schema) (some-injective h) (tt, tt)
picture-Conforms undefined v h = subst (Conforms me_avatar_schema) (some-injective h) (tt, tt)
picture-Conforms _ v h = cc

avatar-Conforms :
    (w v : Value) → parse_avatar me_avatar_schema w ≡ some v → Conforms me_avatar_schema v
avatar-Conforms (object fs) v h = picture-Conforms (get (text "jpegPhoto") fs) v h
avatar-Conforms _ v h = cc

abbrev answer : Value
answer = object (field (text "jpegPhoto") (string (text "/9j/4AAQ")) end)

answered_avatar :
    perform parse_avatar shown (auth_request avatar) false (answered 200 ∷ data_read answer ∷ [])
    ≡ finished (fulfilled answer)
unfolding auth_request exchange run step on_answer conclude parse_response get ◌===◌
answered_avatar = refl

perform-Conforms_example : Conforms me_avatar_schema answer
unfolding auth_request
perform-Conforms_example =
    perform-Conforms parse_avatar shown (auth_request avatar) me_avatar_schema false
      (answered 200 ∷ data_read answer ∷ []) answer avatar-Conforms refl answered_avatar

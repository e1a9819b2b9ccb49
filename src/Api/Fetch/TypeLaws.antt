-- ===== src/Api/Fetch/TypeLaws.antt =====
-- The type of what a call of `api` hands over (fetchApi and parseResponse of web/src/lib/api.ts).
use ldapwarden.Prelude.{JsString, ◌≡◌, subst, Bool, Option, some, List}
use ldapwarden.Values.{Value}
use ldapwarden.Api.Schema.{Schema}
use ldapwarden.Api.Schema.Types.{Conforms}
use ldapwarden.Api.Request.{Request}
use ldapwarden.Api.Fetch.{Event, Phase, fulfilled, finished, exchange}
use ldapwarden.Api.Fetch.DataLaws.{IsReturned, Origin, exchange-Origin}

module _ (safe_parse : Schema → Value → Option Value) (shown : Value → JsString) where
  -- The run of a request.
  abbrev pub perform : Request → Bool → List Event → Phase
  perform q aborted es = (exchange safe_parse shown q.signed q.schema aborted es).phase

  -- Whatever the server sends and in whatever order things happen, a request that names a schema
  -- succeeds only with data of the type of that schema, provided the validation library returns
  -- data of that type.
  pub perform-Conforms :
      (q : Request) (schema : Schema) (aborted : Bool) (es : List Event) (v : Value)
      → ((w v : Value) → safe_parse schema w ≡ some v → Conforms schema v)
      → q.schema ≡ some schema
      → perform q aborted es ≡ finished (fulfilled v)
      → Conforms schema v
  perform-Conforms q schema aborted es v sound e h =
      let origin : Origin safe_parse q.schema es (finished (fulfilled v)) =
        subst (Origin safe_parse q.schema es) h
          (exchange-Origin safe_parse shown q.signed q.schema aborted es) in
      let (w, _, returned) = origin in
      sound w v (subst (λ o. IsReturned safe_parse o w v) e returned)

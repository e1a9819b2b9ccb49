-- ===== src/FormSync/Tests.antt =====
-- The theorems on forms at a form that is a text.
use ldapwarden.Prelude.{JsString, text, ◌===◌, ◌≡◌, refl, true, none, some, [], ◌∷◌}
use ldapwarden.FormSync.{FormState, renders, run, render, same_text, is_dirty, mounted}
use ldapwarden.FormSync.Laws.{IsPristine, run-IsKept, cold_load}

abbrev json : JsString → JsString
json s = s

abbrev synced : JsString → JsString → FormState json
synced form last = record { form = form; last_synced = some last; server = none }

run-IsKept_example :
    ((run json (synced (text "b") (text "a")) (renders (some (text "c")) ∷ [])).form ≡ text "b")
    × ((run json (synced (text "b") (text "a")) (renders (some (text "c")) ∷ [])).last_synced
        ≡ some (text "a"))
unfolding same_text ◌===◌
run-IsKept_example =
    run-IsKept json (synced (text "b") (text "a")) (renders (some (text "c")) ∷ []) refl (refl, tt)

-- An empty form, and the copy of an entry that has a description.
cold_load_example :
    ((render json (some (text "Web hosts")) (run json (mounted json []) (renders none ∷ []))).form
      ≡ [])
    × (is_dirty json
          (render json (some (text "Web hosts")) (run json (mounted json []) (renders none ∷ [])))
        ≡ true)
unfolding ◌===◌
cold_load_example = cold_load json [] (text "Web hosts") (renders none ∷ []) (tt, tt) refl

a-IsPristine : IsPristine json (synced (text "a") (text "a"))
unfolding same_text ◌===◌
a-IsPristine = record { synced = refl; shown = λ u e. cc }

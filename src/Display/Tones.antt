-- ===== src/Display/Tones.antt =====
-- Colours for values and actions: web/src/lib/tones.ts.
pub mod Laws
use ldapwarden.Prelude.{
  ltb, ◌==◌, if◌then◌else◌, JsString, text, contains, unique_from, length, get_or, ℕ, suc, ◌%◌,
  Bool, true, false, ◌&&◌, ◌||◌, List, [], ◌∷◌,
}

pub data Tone : Type 0 where
  blue emerald violet amber pink cyan lime rose indigo teal slate : Tone

abbrev pub tones : List Tone
tones = blue ∷ emerald ∷ violet ∷ amber ∷ pink ∷ cyan ∷ lime ∷ rose ∷ indigo ∷ teal ∷ []

-- The order of `sort()` on strings: by code units.
unfoldable pub is_before : JsString → JsString → Bool
is_before [] [] = false
is_before [] (c ∷ t) = true
is_before (c ∷ s) [] = false
is_before (c ∷ s) (d ∷ t) = ltb c d || (c == d && is_before s t)

unfoldable pub insert_text : JsString → List JsString → List JsString
insert_text x [] = x ∷ []
insert_text x (y ∷ ys) =
    let rest = insert_text x ys in if is_before y x then y ∷ rest else x ∷ (y ∷ ys)

unfoldable pub sort_texts : List JsString → List JsString
unfolding insert_text
sort_texts [] = []
sort_texts (x ∷ xs) = insert_text x (sort_texts xs)

-- `TONES[index % TONES.length]` for the values from an index on.
unfoldable pub tones_from : ℕ → List JsString → List (JsString × Tone)
tones_from index [] = []
tones_from index (value ∷ values) =
    (value, get_or tones (index % length tones) blue) ∷ tones_from (suc index) values

unfoldable pub assign_tones : List JsString → List (JsString × Tone)
unfolding sort_texts tones_from unique_from
assign_tones values = tones_from 0 (sort_texts (unique_from [] values))

unfoldable pub action_tone : JsString → Tone
action_tone action =
    if contains (text "create") action
    then emerald
    else if contains (text "delete") action
        || (contains (text "remove") action || contains (text "failed") action)
    then rose
    else if contains (text "update") action
        || (contains (text "rename") action || contains (text "add") action)
    then blue
    else if contains (text "login") action || contains (text "logout") action
    then violet
    else slate

-- ===== src/CsvImport/Template.antt =====
-- autoMap (web/src/components/csv-import.tsx) on the header of the template.
use mathlib.Core.List.{Memᴰ}
use ldapwarden.Prelude.{
  JsString, ◌===◌, ===_refl, ===_comm, look_up, is_empty, All, ◌≡◌, refl, sym, ap, ◌∙◌, subst,
  false, some, List, [], ◌∷◌, map,
}
use ldapwarden.CsvImport.{ImportField, by_lower, first_match, candidates_of, map_fields, auto_map}

module _ (lower : JsString → JsString) where
  -- The keys of the fields are not empty, and differ in lower case.
  abbrev pub AreApart : List ImportField → Type 0
  AreApart [] = Unit {0}
  AreApart (f ∷ fields) =
      (is_empty f.key ≡ false)
      × All (λ (g : ImportField). (lower f.key === lower g.key) ≡ false) fields
      × AreApart fields

  abbrev keys_of : List ImportField → List JsString
  keys_of = map (λ (f : ImportField). f.key)

  by_lower-skip :
      (key : JsString) (fields : List ImportField) (seen : List (JsString × JsString))
      → All (λ (g : ImportField). (key === lower g.key) ≡ false) fields
      → look_up key (by_lower lower (keys_of fields) seen) ≡ look_up key seen
  unfolding by_lower look_up
  by_lower-skip key [] seen h = refl
  by_lower-skip key (g ∷ fields) seen (h, hs) =
      by_lower-skip key fields ((lower g.key, g.key) ∷ seen) hs
      ∙ rw (===_comm (lower g.key) key ∙ h) refl

  by_lower-key :
      (f : ImportField) (fields : List ImportField) (seen : List (JsString × JsString))
      → AreApart fields
      → Memᴰ f fields
      → look_up (lower f.key) (by_lower lower (keys_of fields) seen) ≡ some f.key
  unfolding by_lower look_up
  by_lower-key f [] seen a m = elim m [ ]
  by_lower-key f (g ∷ fields) seen (_, apart, _) (Memᴰ.head e) =
      subst
        (λ (h : ImportField).
          look_up (lower h.key) (by_lower lower (keys_of fields) ((lower g.key, g.key) ∷ seen))
          ≡ some h.key)
        (sym e)
        (by_lower-skip (lower g.key) fields ((lower g.key, g.key) ∷ seen) apart
          ∙ rw (===_refl (lower g.key)) refl)
  by_lower-key f (g ∷ fields) seen (_, _, a) (Memᴰ.tail m) =
      by_lower-key f fields ((lower g.key, g.key) ∷ seen) a m

  map_fields-keys :
      (fields : List ImportField) (headers : List (JsString × JsString))
      → All
          (λ (f : ImportField).
            (is_empty f.key ≡ false) × (look_up (lower f.key) headers ≡ some f.key))
          fields
      → map_fields lower fields headers ≡ map (λ f. (f.key, f.key)) fields
  unfolding map_fields first_match
  map_fields-keys [] headers h = refl
  map_fields-keys (f ∷ fields) headers ((filled, e), h) =
      let first : first_match lower headers (candidates_of lower f) ≡ some f.key =
        rw (e, first_match) (rw filled refl) in
      rw (first, map_fields) (ap (◌∷◌ (f.key, f.key)) (map_fields-keys fields headers h))

  own_columns :
      (fields all_fields : List ImportField)
      → AreApart all_fields
      → AreApart fields
      → ((f : ImportField) → Memᴰ f fields → Memᴰ f all_fields)
      → All
          (λ (f : ImportField).
            (is_empty f.key ≡ false)
            × (look_up (lower f.key) (by_lower lower (keys_of all_fields) []) ≡ some f.key))
          fields
  own_columns [] all_fields a b sub = tt
  own_columns (f ∷ fields) all_fields a (filled, _, b) sub = (
    (filled, by_lower-key f all_fields [] a (sub f (Memᴰ.head refl))),
    own_columns fields all_fields a b (λ g m. sub g (Memᴰ.tail m)),
  )

  -- A file with the header of the template, the keys of the fields, has each field matched to its
  -- own column.
  pub auto_map-template :
      (fields : List ImportField)
      → AreApart fields
      → auto_map lower fields (map (λ f. f.key) fields) ≡ map (λ f. (f.key, f.key)) fields
  unfolding auto_map
  auto_map-template fields a =
      map_fields-keys fields (by_lower lower (keys_of fields) [])
        (own_columns fields fields a a (λ g m. m))

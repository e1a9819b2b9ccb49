-- ===== src/Ui/Picker/Laws.antt =====
-- What a picker (web/src/lib/use-picker-search.ts) shows of the entries that match.
use ldapwarden.Prelude.{or_default, JsString, length, take, drop, ℕ, Option, none, some, List}
use ldapwarden.Api.Query.{ListParams, SortOrder}
use ldapwarden.Ui.Picker.{Found}

module _ {ℓ} {A : Type ℓ} where
  abbrev page_of : Option ℕ → List A → List A
  page_of none xs = xs
  page_of (some limit) xs = take limit xs

  -- The answer of a list endpoint to a request: a page of the entries that its search has found, in
  -- the order asked for, and their number. A search that is cut short finds fewer than match.
  pub serve : (Option JsString → Option JsString → Option SortOrder → List A) → ListParams → Found A
  serve search p =
      let matches = search p.search p.sort p.order in
      record {
        items = page_of p.limit (drop (or_default p.offset 0) matches);
        total = length matches;
      }

-- ===== src/ListSearch/Laws.antt =====
-- Lemmas on the views that list-search.ts reads from a URL.
use ldapwarden.Prelude.{
  ◌==◌, Bool-cases, or_default, JsString, text, ◌===◌, ===_refl, ===_iff, includes, any, ℕ, ◌≤◌,
  ◌<◌, ◌≡◌, refl, ◌≢◌, inl, inr, true, Option, none, some, List, [], ◌∷◌, arith,
}
use ldapwarden.Values.{
  JsNumber, whole, Value, Items, Fields, end, field, undefined, number, string, get, to_number,
}
use ldapwarden.ListSearch.Validate.{
  SortDirection, asc, desc, page_sizes, default_page_size, ListSearch, as_string, as_one_of,
  as_direction, page_number, page_size, as_page, as_size, list_search_validator, ListView,
  list_search_values, SortState, next_sort,
}

abbrev pub IsSize : ℕ → Type 0
IsSize n = any (λ s. s == n) page_sizes ≡ true

-- A view with no empty search, and no page or size that is the default or that no list offers.
pub record IsClean (fields : List JsString) (s : ListSearch) : Type 0 where
  pub q : (t : JsString) → s.q ≡ some t → t ≢ []
  pub sort : (f : JsString) → s.sort ≡ some f → includes f fields ≡ true
  pub page : (n : ℕ) → s.page ≡ some n → 1 < n
  pub size : (n : ℕ) → s.size ≡ some n → IsSize n × (n ≢ default_page_size)

as_string-nonempty : (v : Value) (t : JsString) → as_string v ≡ some t → t ≢ []
unfolding as_string
as_string-nonempty (string []) t e = cc
as_string-nonempty (string (c ∷ s)) t e = ground arith
as_string-nonempty _ t e = cc

as_one_of-includes :
    (v : Value) (fields : List JsString) (f : JsString)
    → as_one_of v fields ≡ some f
    → includes f fields ≡ true
unfolding as_one_of
as_one_of-includes (string s) fields f e = elim (Bool-cases (includes s fields)) [
  | inl h ↦ let same : s ≡ f = ground arith in rw (← same) h
  | inr h ↦ ground arith
]
as_one_of-includes _ fields f e = cc

page_number-gt : (v : JsNumber) (n : ℕ) → page_number v ≡ some n → 1 < n
unfolding page_number
page_number-gt (whole m) n e = ground arith
page_number-gt _ n e = cc

page_size-IsSize :
    (v : JsNumber) (n : ℕ) → page_size v ≡ some n → IsSize n × (n ≢ default_page_size)
unfolding page_size
page_size-IsSize (whole m) n e = ground arith
page_size-IsSize _ n e = cc

module _ (parse : JsString → JsNumber) (shown : Items → JsString) (fields : List JsString) where
  -- Whatever the URL holds, the validated view has no empty search, a known sort field, a page
  -- after the first, and a page size that is offered and is not the default one.
  pub list_search_validator-IsClean :
      (raw : Fields) → IsClean fields (list_search_validator parse shown fields raw)
  unfolding list_search_validator
  list_search_validator-IsClean raw = record {
    q = as_string-nonempty (get (text "q") raw);
    sort = as_one_of-includes (get (text "sort") raw) fields;
    page = page_number-gt (to_number parse shown (get (text "page") raw));
    size = page_size-IsSize (to_number parse shown (get (text "size") raw));
  }

-- The view as the URL holds it: the fields that are set, each as its value.
abbrev optional {ℓ} : {A : Type ℓ} → (A → Value) → Option A → Value
optional f none = undefined
optional f (some a) = f a

abbrev direction_text : SortDirection → JsString
direction_text asc = text "asc"
direction_text desc = text "desc"

unfoldable pub to_raw : ListSearch → Fields
to_raw s = field (text "q") (optional string s.q) (
    field (text "sort") (optional string s.sort) (
      field (text "dir") (optional (λ d. string (direction_text d)) s.dir) (
        field (text "page") (optional (λ n. number (whole n)) s.page)
          (field (text "size") (optional (λ n. number (whole n)) s.size) end))))

q-to_raw :
    (o : Option JsString)
    → ((t : JsString) → o ≡ some t → t ≢ [])
    → as_string (optional string o) ≡ o
unfolding as_string
q-to_raw none h = refl
q-to_raw (some []) h = absurd (h [] refl refl)
q-to_raw (some (c ∷ t)) h = refl

sort-to_raw :
    (fields : List JsString) (o : Option JsString)
    → ((f : JsString) → o ≡ some f → includes f fields ≡ true)
    → as_one_of (optional string o) fields ≡ o
unfolding as_one_of
sort-to_raw fields none h = refl
sort-to_raw fields (some f) h = rw (h f refl)

dir-to_raw :
    (o : Option SortDirection) → as_direction (optional (λ d. string (direction_text d)) o) ≡ o
unfolding as_direction ◌===◌
dir-to_raw none = refl
dir-to_raw (some asc) = refl
dir-to_raw (some desc) = refl

module _ (parse : JsString → JsNumber) (shown : Items → JsString) where
  page-to_raw :
      (o : Option ℕ)
      → ((n : ℕ) → o ≡ some n → 1 < n)
      → as_page parse shown (optional (λ n. number (whole n)) o) ≡ o
  unfolding as_page
  page-to_raw none h = refl
  page-to_raw (some n) h = ground (arith, h n refl)

  size-to_raw :
      (o : Option ℕ)
      → ((n : ℕ) → o ≡ some n → IsSize n × (n ≢ default_page_size))
      → as_size parse shown (optional (λ n. number (whole n)) o) ≡ o
  unfolding as_size
  size-to_raw none h = refl
  size-to_raw (some n) h = ground (arith, h n refl)

  -- A clean view that is written to the URL and read back is the same view: a link to a list page
  -- keeps the search, the sort, the page and the page size.
  pub list_search_validator-to_raw :
      (fields : List JsString) (s : ListSearch)
      → IsClean fields s
      → list_search_validator parse shown fields (to_raw s) ≡ s
  unfolding list_search_validator to_raw get ◌===◌
  list_search_validator-to_raw fields s c = λ i. record {
    q = q-to_raw s.q c.q i;
    sort = sort-to_raw fields s.sort c.sort i;
    dir = dir-to_raw s.dir i;
    page = page-to_raw s.page c.page i;
    size = size-to_raw s.size c.size i;
  }

-- The view that a list page works with, over the sort fields that it offers.
pub record IsView (fields : List JsString) (v : ListView) : Type 0 where
  pub sort : includes v.sort fields ≡ true
  pub page : 1 ≤ v.page
  pub size : IsSize v.size

-- With the defaults put in, every URL gives a view that the page can serve: an offered sort field
-- and page size, and a page number from 1.
pub list_search_values-IsView :
    (parse : JsString → JsNumber) (shown : Items → JsString) (fields : List JsString)
    (default_sort : JsString) (raw : Fields)
    → includes default_sort fields ≡ true
    → IsView fields (list_search_values (list_search_validator parse shown fields raw) default_sort)
unfolding list_search_values
list_search_values-IsView parse shown fields default_sort raw h =
    from_clean (list_search_validator parse shown fields raw)
      (list_search_validator-IsClean parse shown fields raw)
  where
    from_sort :
        (o : Option JsString)
        → ((f : JsString) → o ≡ some f → includes f fields ≡ true)
        → includes (or_default o default_sort) fields ≡ true
    from_sort none k = h
    from_sort (some f) k = k f refl

    from_page : (o : Option ℕ) → ((n : ℕ) → o ≡ some n → 1 < n) → 1 ≤ or_default o 1
    from_page none k = omega arith
    from_page (some n) k = omega (arith, k n refl)

    from_size :
        (o : Option ℕ)
        → ((n : ℕ) → o ≡ some n → IsSize n × (n ≢ default_page_size))
        → IsSize (or_default o default_page_size)
    from_size none k = refl
    from_size (some n) k = (k n refl).0

    from_clean :
        (s : ListSearch) → IsClean fields s → IsView fields (list_search_values s default_sort)
    from_clean s c = record {
      sort = from_sort s.sort c.sort;
      page = from_page s.page c.page;
      size = from_size s.size c.size;
    }

abbrev pub flip : SortDirection → SortDirection
flip asc = desc
flip desc = asc

-- A second click on a column turns its direction round, a click on another column sorts it upwards,
-- and either returns to the first page.
pub next_sort_clicks :
    (current : SortState) (f g : JsString)
    → f ≢ g
    → ((next_sort (next_sort current f).0 f).0.dir ≡ flip (next_sort current f).0.dir)
      × (next_sort (next_sort current f).0 g ≡ (record { sort = g; dir = asc }, none))
unfolding next_sort
next_sort_clicks current f g ne = ground (arith, ===_refl f, ===_iff f g)

-- ===== src/Api/Query/ListLaws.antt =====
-- What a server reads in the query of a list endpoint.
use mathlib.Core.Option
use ldapwarden.Prelude.{
  ltb, if◌then◌else◌, trim, decimal, IsDecimalDigit, decimal-IsDecimalDigit, JsString, text, ◌===◌,
  drop, all, All, ℕ, ◌≡◌, refl, subst, true, Option, none, some, List, [], ◌∷◌, arith,
}
use ldapwarden.Api.Uri.SegmentLaws.{IsText, IsText-ascii}
use ldapwarden.Api.Query.{
  set, set_text, set_number, list_pairs, list_query, ListParams, SortOrder, ListStatus, active,
  inactive, asc, desc, order_text, status_text, ParamValue, undefined, string, number, is_given,
  value_text, audit_pairs,
}
use ldapwarden.Api.Query.ReadLaws.{read_query}
use ldapwarden.Api.Query.AuditLaws.{
  Entry, IsObject, no_entries, entry, given_pairs, read_query-entries,
}

abbrev text_value : Option JsString → ParamValue
text_value none = undefined
text_value (some s) = string s

abbrev number_value : Option ℕ → ParamValue
number_value none = undefined
number_value (some n) = number n

-- The parameters of a list as the entries of an object, the search trimmed.
abbrev pub list_entries : ListParams → List (JsString × ParamValue)
list_entries p =
    (text "search", text_value (Option.map trim p.search))
    ∷ (text "sort", text_value p.sort)
    ∷ (text "order", text_value (Option.map order_text p.order))
    ∷ (text "limit", number_value p.limit)
    ∷ (text "offset", number_value p.offset)
    ∷ (text "status", text_value (Option.map status_text p.status))
    ∷ []

set_value : Entry → List (JsString × JsString) → List (JsString × JsString)
set_value (key, value) q = if is_given value then set key (value_text value) q else q

set_text-value :
    (key : JsString) (o : Option JsString) (q : List (JsString × JsString))
    → set_text key o q ≡ set_value (key, text_value o) q
unfolding set_text set_value is_given value_text
set_text-value key none q = refl
set_text-value key (some []) q = refl
set_text-value key (some (c ∷ s)) q = refl

set_number-value :
    (key : JsString) (o : Option ℕ) (q : List (JsString × JsString))
    → set_number key o q ≡ set_value (key, number_value o) q
unfolding set_number set_value is_given value_text
set_number-value key none q = refl
set_number-value key (some n) q = ground arith

list_pairs-audit_pairs : (p : ListParams) → list_pairs p ≡ audit_pairs (list_entries p) []
unfolding list_pairs audit_pairs set_value
list_pairs-audit_pairs p = simp (set_text-value, set_number-value)

list_entries-IsObject : (p : ListParams) → IsObject (list_entries p)
unfolding ◌===◌
list_entries-IsObject p =
    entry (refl, (refl, (refl, (refl, (refl, tt)))))
      (entry (refl, (refl, (refl, (refl, tt))))
        (entry (refl, (refl, (refl, tt)))
          (entry (refl, (refl, tt)) (entry (refl, tt) (entry tt no_entries)))))

decimal-IsText : (n : ℕ) → IsText (decimal n)
decimal-IsText n = IsText-ascii (decimal n) (digits (decimal n) (decimal-IsDecimalDigit n))
  where
    digits : (s : JsString) → All IsDecimalDigit s → all (λ c. ltb c 128) s ≡ true
    digits [] h = refl
    digits (c ∷ s) (k, h) = ground (arith, digits s h)

number-IsText : (o : Option ℕ) → IsText (value_text (number_value o))
unfolding value_text
number-IsText none = IsText-ascii (text "undefined") refl
number-IsText (some n) = decimal-IsText n

optional-IsText :
    (o : Option JsString)
    → ((s : JsString) → o ≡ some s → IsText s)
    → IsText (value_text (text_value o))
unfolding value_text
optional-IsText none h = IsText-ascii (text "undefined") refl
optional-IsText (some s) h = h s refl

order-IsText : (o : Option SortOrder) (s : JsString) → Option.map order_text o ≡ some s → IsText s
order-IsText none s e = cc
order-IsText (some asc) s e =
    let same : text "asc" ≡ s = ground arith in subst IsText same (IsText-ascii (text "asc") refl)
order-IsText (some desc) s e =
    let same : text "desc" ≡ s = ground arith in subst IsText same (IsText-ascii (text "desc") refl)

status-IsText :
    (o : Option ListStatus) (s : JsString) → Option.map status_text o ≡ some s → IsText s
status-IsText none s e = cc
status-IsText (some active) s e =
    let same : text "active" ≡ s = ground arith in
    subst IsText same (IsText-ascii (text "active") refl)
status-IsText (some inactive) s e =
    let same : text "inactive" ≡ s = ground arith in
    subst IsText same (IsText-ascii (text "inactive") refl)

-- The trimmed search and the sort field hold no lone surrogate.
pub record IsListText (p : ListParams) : Type 0 where
  pub search : (s : JsString) → Option.map trim p.search ≡ some s → IsText s
  pub sort : (s : JsString) → p.sort ≡ some s → IsText s

-- The query of a list endpoint carries exactly the parameters that are given, in a fixed order:
-- the trimmed search unless it is empty, the sort, the order, the limit and the offset unless they
-- are 0, and the status. This is what a server that parses it reads.
pub read_query-list_query :
    (p : ListParams)
    → IsListText p
    → read_query (drop 1 (list_query (some p))) ≡ given_pairs (list_entries p)
unfolding list_query
read_query-list_query p h = rw (list_pairs-audit_pairs p) (
    read_query-entries (list_entries p) (list_entries-IsObject p) (
      (IsText-ascii (text "search") refl, optional-IsText _ h.search),
      (
        (IsText-ascii (text "sort") refl, optional-IsText p.sort h.sort),
        (
          (IsText-ascii (text "order") refl, optional-IsText _ (order-IsText p.order)),
          (
            (IsText-ascii (text "limit") refl, number-IsText p.limit),
            (
              (IsText-ascii (text "offset") refl, number-IsText p.offset),
              ((IsText-ascii (text "status") refl, optional-IsText _ (status-IsText p.status)), tt),
            ),
          ),
        ),
      ),
    ))

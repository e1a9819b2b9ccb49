-- ===== src/Api/Query/AuditLaws.antt =====
-- What a server reads in the query of the audit log.
use mathlib.Core.List.{append-nil, append_assoc}
use ldapwarden.Prelude.{
  if◌then◌else◌, Bool-cases, JsString, ◌===◌, drop, All, All-append, All-weaken, ◌≡◌, refl, sym,
  ◌∙◌, inl, inr, false, some, List, [], ◌∷◌, ◌++◌,
}
use ldapwarden.Api.Uri.SegmentLaws.{IsText}
use ldapwarden.Api.Query.{
  set, with_mark, to_string, ParamValue, is_given, value_text, audit_pairs, audit_query,
}
use ldapwarden.Api.Query.ReadLaws.{read_query, IsPair, read_query-to_string, to_string-nonempty}

abbrev Absent : JsString → List (JsString × JsString) → Type 0
Absent key pairs = All (λ p. (p.0 === key) ≡ false) pairs

set-Absent :
    (key value : JsString) (q : List (JsString × JsString))
    → Absent key q
    → set key value q ≡ q ++ (key, value) ∷ []
unfolding set
set-Absent key value [] h = refl
set-Absent key value ((k, v) ∷ q) (a, h) = rw (a, set-Absent key value q h) refl

abbrev pub Entry : Type 0
Entry = JsString × ParamValue

-- The keys of an object: no two are the same.
pub data IsObject : List Entry → Type 0 where
  no_entries : IsObject []
  entry :
      {key : JsString} {value : ParamValue} {entries : List Entry}
      → All (λ e. (key === e.0) ≡ false) entries
      → IsObject entries
      → IsObject ((key, value) ∷ entries)

-- The entries with a value, as texts: neither undefined, nor empty, nor 0.
abbrev pub given_pairs : List Entry → List (JsString × JsString)
given_pairs [] = []
given_pairs ((key, value) ∷ entries) =
    let rest = given_pairs entries in
    if is_given value then (key, value_text value) ∷ rest else rest

audit_pairs-given :
    (entries : List Entry) (q : List (JsString × JsString))
    → IsObject entries
    → All (λ e. Absent e.0 q) entries
    → audit_pairs entries q ≡ q ++ given_pairs entries
unfolding audit_pairs
audit_pairs-given [] q h k = sym (append-nil q)
audit_pairs-given ((key, value) ∷ entries) q (entry new h) (a, k) =
    elim (Bool-cases (is_given value)) [
      | inl e ↦
          rw (e, set-Absent key (value_text value) q a)
            (audit_pairs-given entries (q ++ (key, value_text value) ∷ []) h (still entries new k)
              ∙ append_assoc q ((key, value_text value) ∷ []) (given_pairs entries))
      | inr e ↦ rw e (audit_pairs-given entries q h k)
    ]
  where
    still :
        (es : List Entry)
        → All (λ e. (key === e.0) ≡ false) es
        → All (λ e. Absent e.0 q) es
        → All (λ e. Absent e.0 (q ++ (key, value_text value) ∷ [])) es
    still [] n k = tt
    still (e ∷ es) (n, ns) (k, ks) = (
      All-append (λ (p : JsString × JsString). (p.0 === e.0) ≡ false) q
          ((key, value_text value) ∷ []) k (n, tt),
      still es ns ks,
    )

-- A pair that is put in a query holds no lone surrogate.
abbrev pub IsTextEntry : Entry → Type 0
IsTextEntry e = IsText e.0 × IsText (value_text e.1)

given_pairs-IsPair :
    (entries : List Entry) → All IsTextEntry entries → All IsPair (given_pairs entries)
given_pairs-IsPair [] h = tt
given_pairs-IsPair ((key, value) ∷ entries) (k, h) = elim (Bool-cases (is_given value)) [
  | inl e ↦ rw e (k, given_pairs-IsPair entries h)
  | inr e ↦ rw e (given_pairs-IsPair entries h)
]

-- What follows the question mark.
read_query-with_mark :
    (ps : List (JsString × JsString))
    → All IsPair ps
    → read_query (drop 1 (with_mark (to_string ps))) ≡ ps
unfolding with_mark to_string
read_query-with_mark [] h = read_query-to_string [] tt
read_query-with_mark (p ∷ ps) h = rw (to_string-nonempty p ps) (read_query-to_string (p ∷ ps) h)

-- The pairs of entries, put in a query and read back.
pub read_query-entries :
    (params : List Entry)
    → IsObject params
    → All IsTextEntry params
    → read_query (drop 1 (with_mark (to_string (audit_pairs params [])))) ≡ given_pairs params
read_query-entries params h k =
    let pairs : audit_pairs params [] ≡ given_pairs params =
      audit_pairs-given params [] h (All-weaken params (λ e n. tt) k) in
    rw pairs (read_query-with_mark (given_pairs params) (given_pairs-IsPair params k))

-- The query of the audit log carries exactly the parameters that have a value, in their order:
-- this is what a server that parses it reads.
pub read_query-audit_query :
    (params : List (JsString × ParamValue))
    → IsObject params
    → All IsTextEntry params
    → read_query (drop 1 (audit_query (some params))) ≡ given_pairs params
unfolding audit_query
read_query-audit_query params h k = read_query-entries params h k

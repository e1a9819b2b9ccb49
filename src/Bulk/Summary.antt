-- ===== src/Bulk/Summary.antt =====
-- `bulkSummary` of web/src/lib/bulk.ts.
use ldapwarden.Prelude.{
  ◌==◌, if◌then◌else◌, Bool-cases, decimal, IsDecimalDigit, decimal-injective,
  decimal-IsDecimalDigit, JsString, text, cut_eq, append-cancel, length, ℕ, ◌≡◌, sym, ap, ◌∙◌, inl,
  inr, [], ◌∷◌, ◌++◌, arith,
}
use ldapwarden.Bulk.Run.{BulkResult}

unfoldable pub unit_of : JsString → ℕ → JsString
unit_of noun n = noun ++ (if n == 1 then [] else text "s")

unfoldable pub bulk_summary : {A : Type 0} → JsString → JsString → BulkResult A → JsString
bulk_summary verb noun r =
    if length r.failed == 0
    then verb
      ++ (text " " ++ (decimal r.succeeded ++ (text " " ++ (unit_of noun r.succeeded ++ text "."))))
    else verb
      ++ (text " "
          ++ (decimal r.succeeded
              ++ (text " "
                  ++ (unit_of noun r.succeeded
                      ++ (text ", " ++ (decimal (length r.failed) ++ text " failed."))))))

closing : ℕ → JsString
closing n = if n == 0 then text "." else text ", " ++ (decimal n ++ text " failed.")

digit-ne-space : ¬ IsDecimalDigit b' '
digit-ne-space (h, k) = omega arith

-- Two numbers, each in front of a space.
decimal-cut :
    (m n : ℕ) (r r' : JsString)
    → decimal m ++ (b' ' ∷ r) ≡ decimal n ++ (b' ' ∷ r')
    → (m ≡ n) × (r ≡ r')
decimal-cut m n r r' e =
    let (digits, rest) =
      cut_eq IsDecimalDigit (decimal m) (decimal n) b' ' r r' digit-ne-space
        (decimal-IsDecimalDigit m) (decimal-IsDecimalDigit n) e in
    (decimal-injective m n digits, rest)

closing-injective : (m n : ℕ) → closing m ≡ closing n → m ≡ n
unfolding closing
closing-injective m n e = elim (Bool-cases (m == 0)) [
  | inl p ↦ elim (Bool-cases (n == 0)) [ inl q ↦ ground arith | inr q ↦ ground arith ]
  | inr p ↦ elim (Bool-cases (n == 0)) [
    | inl q ↦ ground arith
    | inr q ↦
        let same : decimal m ++ text " failed." ≡ decimal n ++ text " failed." = ground arith in
        (decimal-cut m n (text "failed.") (text "failed.") same).0
  ]
]

module _ {A : Type 0} (verb noun : JsString) where
  -- What stands behind the number of successes.
  rest_of : BulkResult A → JsString
  rest_of r = unit_of noun r.succeeded ++ closing (length r.failed)

  summary_split :
      (r : BulkResult A)
      → bulk_summary verb noun r
        ≡ verb ++ (text " " ++ (decimal r.succeeded ++ (text " " ++ rest_of r)))
  unfolding bulk_summary rest_of closing
  summary_split r = ground arith

  tail_eq :
      (r q : BulkResult A)
      → r.succeeded ≡ q.succeeded
      → rest_of r ≡ rest_of q
      → length r.failed ≡ length q.failed
  unfolding rest_of
  tail_eq r q e f =
      let unit : unit_of noun q.succeeded ≡ unit_of noun r.succeeded = ap (unit_of noun) (sym e) in
      closing-injective _ _ (
        append-cancel (unit_of noun r.succeeded)
          (f ∙ ap (λ u. u ++ closing (length q.failed)) unit))

  -- A summary tells both counts: two results with the same summary have the same number of
  -- successes and the same number of failures.
  pub bulk_summary-counts :
      (r q : BulkResult A)
      → bulk_summary verb noun r ≡ bulk_summary verb noun q
      → (r.succeeded ≡ q.succeeded) × (length r.failed ≡ length q.failed)
  bulk_summary-counts r q e =
      let (same, rest) = decimal-cut r.succeeded q.succeeded (rest_of r) (rest_of q) (
        append-cancel (text " ")
          (append-cancel verb (sym (summary_split r) ∙ e ∙ summary_split q))) in
      (same, tail_eq r q same rest)

-- ===== src/UserPage/Keys/Laws.antt =====
-- The parts of an SSH key.
use ldapwarden.Prelude.{
  ◌==◌, Bool-cases, split_on, split_on-cons, split_on-append, JsString, text, is_empty, take, All,
  ℕ, ◌≡◌, refl, sym, ap, ◌∙◌, ◌≢◌, inl, inr, false, List, [], ◌∷◌, ◌++◌, arith,
}
use ldapwarden.UserPage.Keys.{join_spaces, parse_key_info}

join_spaces-head :
    (c : ℕ) (p : JsString) (ps : List JsString)
    → join_spaces ((c ∷ p) ∷ ps) ≡ c ∷ join_spaces (p ∷ ps)
join_spaces-head c p [] = refl
join_spaces-head c p (q ∷ ps) = refl

-- Splitting a text at its spaces and joining the parts gives the text.
pub join_spaces-split_on : (s : JsString) → join_spaces (split_on b' ' s) ≡ s
unfolding split_on
join_spaces-split_on [] = refl
join_spaces-split_on (c ∷ s) =
    let (p, ps, e) = split_on-cons b' ' s in
    let back : join_spaces (p ∷ ps) ≡ s = ap join_spaces (sym e) ∙ join_spaces-split_on s in
    elim (Bool-cases (c == b' ')) [
      | inl h ↦ let same : c ≡ b' ' = ground arith in rw (e, split_on, h, back) (rw same refl)
      | inr h ↦ rw (e, split_on, h) (join_spaces-head c p ps ∙ ap (◌∷◌ c) back)
    ]

-- Of a key written as its type, its data and a comment, with single spaces between them, the page
-- shows the type, the comment, with whatever spaces it has, and the first twenty characters of the
-- data.
pub parse_key_info_lem :
    (type blob comment : JsString)
    → All (λ c. c ≢ b' ') type
    → All (λ c. c ≢ b' ') blob
    → is_empty type ≡ false
    → is_empty blob ≡ false
    → parse_key_info (type ++ (b' ' ∷ (blob ++ (b' ' ∷ comment))))
      ≡ record { type = type; comment = comment; fingerprint = take 20 blob ++ text "..." }
unfolding parse_key_info
parse_key_info_lem type blob comment t b e f =
    let (p, ps, g) = split_on-cons b' ' comment in
    let back : join_spaces (p ∷ ps) ≡ comment =
      ap join_spaces (sym g) ∙ join_spaces-split_on comment in
    rw
      (
        split_on-append b' ' type (blob ++ (b' ' ∷ comment)) t,
        split_on-append b' ' blob comment b,
        g,
        e,
        f,
        back,
      )
      refl

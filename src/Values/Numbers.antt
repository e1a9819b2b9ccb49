-- ===== src/Values/Numbers.antt =====
-- `parseInt` reads what `String` prints of an integer.
use ldapwarden.Prelude.{
  ltb, leb, ◌==◌, all_below, all_below_sound, is_white, trim_start, decimal, decimal_value,
  IsDecimalDigit, decimal_value-decimal, decimal-IsDecimalDigit, JsString, All, ℕ, ◌≤◌, ◌≡◌, refl,
  sym, ap, ◌∙◌, subst, ◌≢◌, true, false, not, ◌&&◌, ◌||◌, [], ◌∷◌, arith,
}
use ldapwarden.Values.{whole, digit_prefix, parse_int}

digit_prefix-append : (s : JsString) → All IsDecimalDigit s → digit_prefix s ≡ s
digit_prefix-append [] h = refl
digit_prefix-append (c ∷ s) ((p, q), h) =
    let e : (leb b'0' c && leb c b'9') ≡ true = ground arith in rw (e, digit_prefix-append s h) refl

decimal_zero : decimal 0 ≢ []
unfolding decimal
decimal_zero e = cc

pub decimal-cons : (n : ℕ) → (c : ℕ) × (s : JsString) × (decimal n ≡ c ∷ s)
decimal-cons n = by_cases (decimal n) refl
  where
    by_cases : (t : JsString) → decimal n ≡ t → (c : ℕ) × (s : JsString) × (decimal n ≡ c ∷ s)
    by_cases (c ∷ s) e = (c, s, e)
    by_cases [] e =
        let zero_value : n ≡ 0 = sym (decimal_value-decimal n) ∙ ap decimal_value e in
        absurd (decimal_zero (ap decimal (sym zero_value) ∙ e))

no_white : all_below 58 (λ x. ltb x b'-' || not (is_white x)) ≡ true
no_white = refl

trim_start-digit : (c : ℕ) (s : JsString) → b'-' ≤ c → c ≤ b'9' → trim_start (c ∷ s) ≡ c ∷ s
unfolding trim_start
trim_start-digit c s h k =
    let small : ltb c b'-' ≡ false = ground arith in
    let e : not (is_white c) ≡ true =
      rw small at
        (all_below_sound 58 (λ x. ltb x b'-' || not (is_white x)) c no_white (omega arith)) in
    let f : is_white c ≡ false = ground arith in rw f refl

parse_int-digits :
    (c : ℕ) (s : JsString)
    → All IsDecimalDigit (c ∷ s)
    → parse_int (c ∷ s) ≡ whole (decimal_value (c ∷ s))
unfolding parse_int
parse_int-digits c s ((p, q), h) =
    let minus : (c == b'-') ≡ false = ground arith in
    let plus : (c == b'+') ≡ false = ground arith in
    rw (trim_start-digit c s (omega arith) q, minus, plus, digit_prefix-append (c ∷ s) ((p, q), h))
      refl

pub parse_int-decimal : (n : ℕ) → parse_int (decimal n) ≡ whole n
parse_int-decimal n =
    let (c, s, e) = decimal-cons n in
    rw e (
      parse_int-digits c s (subst (λ t. All IsDecimalDigit t) e (decimal-IsDecimalDigit n))
      ∙ ap (λ (t : JsString). whole (decimal_value t)) (sym e)
      ∙ ap (λ (m : ℕ). whole m) (decimal_value-decimal n))

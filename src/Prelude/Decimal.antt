-- ===== src/Prelude/Decimal.antt =====
-- `String(n)` of a natural number, and the number that a run of digits stands for.
use Prim.Native.Nat.{ℕ, zero, suc, ◌+◌, ◌-◌, ◌*◌, ◌/◌, ◌%◌, ◌≤◌, ◌<◌}
use mathlib.Core.Path.{◌≡◌, sym, ap, ◌∙◌}
use mathlib.Core.List.{[], ◌∷◌}
use native.Mathlib.Omega.{arith}
use ldapwarden.Prelude.Tests.{ltb, if◌then◌else◌, Bool-cases}
use ldapwarden.Prelude.Lists.{All}
use ldapwarden.Prelude.Text.{JsString}
use mathlib.Core.Logic.{inl, inr}

digits_from : ℕ → ℕ → JsString → JsString
digits_from zero n tail = tail
digits_from (suc fuel) n tail =
    let rest = digits_from fuel (n / 10) ((n % 10 + b'0') ∷ tail) in
    if ltb n 10 then (n + b'0') ∷ tail else rest

-- One round for each digit; `n + 1` rounds are enough, by `decimal_value-decimal`.
unfoldable pub decimal : ℕ → JsString
unfolding digits_from
decimal n = digits_from (suc n) n []

-- `parseInt` of a run of digits, from the value of those before it.
abbrev pub value_from : ℕ → JsString → ℕ
value_from v [] = v
value_from v (c ∷ s) = value_from (v * 10 + (c - b'0')) s

abbrev pub decimal_value : JsString → ℕ
decimal_value = value_from 0

abbrev pub IsDecimalDigit : ℕ → Type 0
IsDecimalDigit c = (b'0' ≤ c) × (c ≤ b'9')

value-digits_from :
    (fuel n : ℕ) (tail : JsString)
    → n < fuel
    → value_from 0 (digits_from fuel n tail) ≡ value_from n tail
unfolding digits_from
value-digits_from zero n tail h = absurd (omega arith)
value-digits_from (suc fuel) n tail h = elim (Bool-cases (ltb n 10)) [
  | inl e ↦ rw e (ap (λ v. value_from v tail) (omega arith))
  | inr e ↦ rw e (
      value-digits_from fuel (n / 10) ((n % 10 + b'0') ∷ tail) (ground arith)
      ∙ ap (λ v. value_from v tail) (omega arith))
]

pub decimal_value-decimal : (n : ℕ) → decimal_value (decimal n) ≡ n
unfolding decimal
decimal_value-decimal n = value-digits_from (suc n) n [] (omega arith)

pub decimal-injective : (m n : ℕ) → decimal m ≡ decimal n → m ≡ n
decimal-injective m n e =
    sym (decimal_value-decimal m) ∙ ap decimal_value e ∙ decimal_value-decimal n

All-digits_from :
    (fuel n : ℕ) (tail : JsString)
    → All IsDecimalDigit tail
    → All IsDecimalDigit (digits_from fuel n tail)
unfolding digits_from
All-digits_from zero n tail h = h
All-digits_from (suc fuel) n tail h = elim (Bool-cases (ltb n 10)) [
  | inl e ↦ rw e ((ground arith, ground arith), h)
  | inr e ↦ rw e (All-digits_from fuel (n / 10) _ ((omega arith, omega arith), h))
]

pub decimal-IsDecimalDigit : (n : ℕ) → All IsDecimalDigit (decimal n)
unfolding decimal
decimal-IsDecimalDigit n = All-digits_from (suc n) n [] tt

-- ===== src/Password/Laws.antt =====
-- The bytes that a generated password is made of.
use mathlib.Core.List.{append-nil, append_assoc}
use ldapwarden.Prelude.{
  ltb, ◌==◌, if◌then◌else◌, ==_iff, Bool-cases, all_below_sound, JsString, length, take,
  length-append, take_all, ℕ, zero, suc, ◌+◌, ◌%◌, ◌≤◌, ◌<◌, ◌≡◌, refl, sym, ap, ◌∙◌, subst, inl,
  inr, Bool, false, ◌&&◌, some, List, [], ◌∷◌, ◌++◌, arith,
}
use ldapwarden.Password.{alphabet_length, max_byte, char_of, take_bytes, generate_password}

-- The characters of the bytes that are not rejected.
abbrev pub accepted : List ℕ → JsString
accepted [] = []
accepted (byte ∷ bytes) =
    if ltb byte max_byte then char_of byte ∷ accepted bytes else accepted bytes

abbrev pub all_accepted : List (List ℕ) → JsString
all_accepted [] = []
all_accepted (buffer ∷ buffers) = accepted buffer ++ all_accepted buffers

take-append : (n : ℕ) (xs ys : JsString) → length xs ≡ n → take n (xs ++ ys) ≡ xs
take-append zero [] ys h = refl
take-append zero (x ∷ xs) ys h = absurd (omega arith)
take-append (suc n) [] ys h = absurd (omega arith)
take-append (suc n) (x ∷ xs) ys h = ap (◌∷◌ x) (take-append n xs ys (omega arith))

take-take : (n : ℕ) (xs ys : JsString) → take n (take n xs ++ ys) ≡ take n (xs ++ ys)
take-take zero xs ys = refl
take-take (suc n) [] ys = refl
take-take (suc n) (x ∷ xs) ys = ap (◌∷◌ x) (take-take n xs ys)

length-take : (n : ℕ) (xs : JsString) → length (take n xs) ≤ n
length-take zero xs = omega arith
length-take (suc n) [] = omega arith
length-take (suc n) (x ∷ xs) = omega (arith, length-take n xs)

length-take-enough : (n : ℕ) (xs : JsString) → n ≤ length xs → length (take n xs) ≡ n
length-take-enough zero xs h = refl
length-take-enough (suc n) [] h = absurd (omega arith)
length-take-enough (suc n) (x ∷ xs) h = omega (arith, length-take-enough n xs (omega arith))

-- What is too short to be cut is kept whole.
length-take-append :
    (n : ℕ) (xs ys : JsString) → n ≤ length (xs ++ ys) → n ≤ length (take n xs ++ ys)
length-take-append zero xs ys h = omega arith
length-take-append (suc n) [] ys h = h
length-take-append (suc n) (x ∷ xs) ys h = omega (arith, length-take-append n xs ys (omega arith))

take_bytes-take :
    (n : ℕ) (bytes : List ℕ) (out : JsString)
    → length out ≤ n
    → take_bytes n bytes out ≡ take n (out ++ accepted bytes)
unfolding take_bytes
take_bytes-take n [] out h = sym (ap (take n) (append-nil out) ∙ take_all n out h)
take_bytes-take n (byte ∷ bytes) out h = elim (Bool-cases (length out == n)) [
  | inl e ↦ let full : length out ≡ n = ground arith in rw e (sym (take-append n out _ full))
  | inr e ↦ elim (Bool-cases (ltb byte max_byte)) [
    | inl k ↦
        let room : length (out ++ char_of byte ∷ []) ≤ n =
          ground (arith, length-append out (char_of byte ∷ [])) in
        rw (e, k)
          (take_bytes-take n bytes (out ++ char_of byte ∷ []) room
            ∙ ap (take n) (append_assoc out (char_of byte ∷ []) (accepted bytes)))
    | inr k ↦ rw (e, k) (take_bytes-take n bytes out h)
  ]
]

generate_from :
    (n : ℕ) (buffers : List (List ℕ)) (out : JsString)
    → length out ≤ n
    → n ≤ length (out ++ all_accepted buffers)
    → generate_password n buffers out ≡ some (take n (out ++ all_accepted buffers))
unfolding generate_password
generate_from n [] out h k =
    let full : ltb (length out) n ≡ false = ground (arith, ap length (append-nil out)) in
    rw full (ap (λ (s : JsString). some s) (sym (ap (take n) (append-nil out) ∙ take_all n out h)))
generate_from n (buffer ∷ buffers) out h k = elim (Bool-cases (ltb (length out) n)) [
  | inl e ↦
      let cut = take_bytes-take n buffer out h in
      rw (e, cut)
        (generate_from n buffers (take n (out ++ accepted buffer)) (length-take n _) (
            length-take-append n (out ++ accepted buffer) (all_accepted buffers) (
              subst (λ (s : JsString). n ≤ length s)
                (sym (append_assoc out (accepted buffer) (all_accepted buffers))) k))
          ∙ ap (λ (s : JsString). some s)
              (take-take n (out ++ accepted buffer) (all_accepted buffers)
                ∙ ap (take n) (append_assoc out (accepted buffer) (all_accepted buffers))))
  | inr e ↦
      let full : length out ≡ n = ground arith in
      rw e (ap (λ (s : JsString). some s) (sym (take-append n out _ full)))
]

-- With enough accepted bytes the password is made of the first of them, in their order, and has
-- exactly the length asked for.
pub generate_password-accepted :
    (n : ℕ) (buffers : List (List ℕ))
    → n ≤ length (all_accepted buffers)
    → (generate_password n buffers [] ≡ some (take n (all_accepted buffers)))
      × (length (take n (all_accepted buffers)) ≡ n)
generate_password-accepted n buffers h =
    (generate_from n buffers [] (omega arith) h, length-take-enough n (all_accepted buffers) h)

-- How many numbers below a bound pass a test.
abbrev pub count_below : ℕ → (ℕ → Bool) → ℕ
count_below zero p = 0
count_below (suc n) p = (if p n then 1 else 0) + count_below n p

-- A byte is accepted and stands for the character at a place of the alphabet.
abbrev pub stands_for : ℕ → ℕ → Bool
stands_for place byte = ltb byte max_byte && byte % alphabet_length == place

-- No character is favoured: of the 256 bytes as many stand for one place of the alphabet as for
-- any other.
pub count_below-stands_for : (place : ℕ) → place < 69 → count_below 256 (stands_for place) ≡ 3
count_below-stands_for place h =
    (==_iff _ 3).0 (all_below_sound 69 (λ k. count_below 256 (stands_for k) == 3) place refl h)

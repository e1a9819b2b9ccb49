-- ===== src/Api/Uri/Utf8.antt =====
-- UTF-8 and UTF-16 decoding, as a server and a browser do it.
use mathlib.Core.Option
use ldapwarden.Prelude.{
  ltb, if◌then◌else◌, Bool-cases, ltb→lt, JsString, All, ℕ, zero, suc, ◌+◌, ◌-◌, ◌*◌, ◌/◌, ◌%◌, ◌≤◌,
  ◌<◌, ◌≡◌, refl, ap, ◌∙◌, subst, inl, inr, true, false, ◌||◌, Option, none, some, List, [], ◌∷◌,
  ◌++◌, arith,
}
use ldapwarden.Api.Uri.{is_high, is_low, join, code_points, utf8}

-- UTF-8: `more` are the bytes that the current code point still needs.
unfoldable pub decode_utf8 : ℕ → ℕ → List ℕ → List ℕ
decode_utf8 more point [] = []
decode_utf8 zero point (b ∷ bs) =
    let next = decode_utf8 0 0 bs in
    let one = decode_utf8 1 (b - 192) bs in
    let two = decode_utf8 2 (b - 224) bs in
    let three = decode_utf8 3 (b - 240) bs in
    if ltb b 128 then b ∷ next else if ltb b 224 then one else if ltb b 240 then two else three
decode_utf8 (suc zero) point (b ∷ bs) = (point * 64 + (b - 128)) ∷ decode_utf8 0 0 bs
decode_utf8 (suc (suc more)) point (b ∷ bs) = decode_utf8 (suc more) (point * 64 + (b - 128)) bs

unfoldable pub units : List ℕ → JsString
units [] = []
units (p ∷ ps) =
    if ltb p 65536
    then p ∷ units ps
    else (55296 + (p - 65536) / 1024) ∷ (56320 + (p - 65536) % 1024) ∷ units ps

abbrev pub IsPoint : ℕ → Type 0
IsPoint p = p < 1114112

pub utf8-bytes : (p : ℕ) → IsPoint p → All (λ b. b < 256) (utf8 p)
unfolding utf8
utf8-bytes p h = elim (Bool-cases (ltb p 128)) [
  | inl e ↦ rw e (omega (arith, ltb→lt _ _ e), tt)
  | inr e ↦ rw e (elim (Bool-cases (ltb p 2048)) [
    | inl f ↦ rw f (omega (arith, ltb→lt _ _ f), (omega arith, tt))
    | inr f ↦ rw f (elim (Bool-cases (ltb p 65536)) [
      | inl g ↦ rw g (omega (arith, ltb→lt _ _ g), (omega arith, (omega arith, tt)))
      | inr g ↦ rw g (omega arith, (omega arith, (omega arith, (omega arith, tt))))
    ])
  ])
]

pub decode_utf8-utf8 :
    (p : ℕ) (bs : List ℕ) → IsPoint p → decode_utf8 0 0 (utf8 p ++ bs) ≡ p ∷ decode_utf8 0 0 bs
unfolding utf8 decode_utf8
decode_utf8-utf8 p bs h = elim (Bool-cases (ltb p 128)) [
  | inl e ↦ rw (e, e) refl
  | inr e ↦ elim (Bool-cases (ltb p 2048)) [
    | inl f ↦ rw (e, f) (two (ground arith) (ltb→lt _ _ f))
    | inr f ↦ elim (Bool-cases (ltb p 65536)) [
      | inl g ↦ rw (e, f, g) (three (ground arith) (ltb→lt _ _ g))
      | inr g ↦ rw (e, f, g) (four (ground arith))
    ]
  ]
]
  where
    two :
        128 ≤ p
        → p < 2048
        → decode_utf8 0 0 ((192 + p / 64) ∷ (128 + p % 64) ∷ bs) ≡ p ∷ decode_utf8 0 0 bs
    two lo hi =
        let a : ltb (192 + p / 64) 128 ≡ false = ground arith in
        let b : ltb (192 + p / 64) 224 ≡ true = ground arith in
        let e : (192 + p / 64 - 192) * 64 + (128 + p % 64 - 128) ≡ p = omega arith in
        rw (a, b, e) refl

    three :
        2048 ≤ p
        → p < 65536
        → decode_utf8 0 0 ((224 + p / 4096) ∷ (128 + p / 64 % 64) ∷ (128 + p % 64) ∷ bs)
          ≡ p ∷ decode_utf8 0 0 bs
    three lo hi =
        let a : ltb (224 + p / 4096) 128 ≡ false = ground arith in
        let b : ltb (224 + p / 4096) 224 ≡ false = ground arith in
        let c : ltb (224 + p / 4096) 240 ≡ true = ground arith in
        let e : ((224 + p / 4096 - 224) * 64 + (128 + p / 64 % 64 - 128)) * 64
              + (128 + p % 64 - 128)
            ≡ p =
          omega arith in
        rw (a, b, c, e) refl

    four :
        65536 ≤ p
        → decode_utf8 0 0
            ((240 + p / 262144) ∷ (128 + p / 4096 % 64) ∷ (128 + p / 64 % 64) ∷ (128 + p % 64) ∷ bs)
          ≡ p ∷ decode_utf8 0 0 bs
    four lo =
        let a : ltb (240 + p / 262144) 128 ≡ false = ground arith in
        let b : ltb (240 + p / 262144) 224 ≡ false = ground arith in
        let c : ltb (240 + p / 262144) 240 ≡ false = ground arith in
        let e : (((240 + p / 262144 - 240) * 64 + (128 + p / 4096 % 64 - 128)) * 64
                  + (128 + p / 64 % 64 - 128))
                * 64
              + (128 + p % 64 - 128)
            ≡ p =
          omega arith in
        rw (a, b, c, e) refl

abbrev pub IsUnit : ℕ → Type 0
IsUnit c = c < 65536

units-join :
    (c d : ℕ) (ps : List ℕ)
    → is_high c ≡ true
    → is_low d ≡ true
    → IsPoint (join c d) × (units (join c d ∷ ps) ≡ c ∷ d ∷ units ps)
unfolding units
units-join c d ps hi lo =
    let a : 55296 ≤ c = ground arith in
    let b : c < 56320 = ground arith in
    let f : 56320 ≤ d = ground arith in
    let g : d < 57344 = ground arith in
    let big : ltb (join c d) 65536 ≡ false = ground arith in
    let x : 55296 + (join c d - 65536) / 1024 ≡ c = omega arith in
    let y : 56320 + (join c d - 65536) % 1024 ≡ d = omega arith in
    (omega arith, rw (big, x, y) refl)

-- Code points that spell a text.
abbrev pub Spells : JsString → List ℕ → Type 0
Spells s ps = All IsPoint ps × (units ps ≡ s)

Spells-unit :
    (c : ℕ) (s : JsString) (ps : List ℕ) → IsUnit c → Spells s ps → Spells (c ∷ s) (c ∷ ps)
unfolding units
Spells-unit c s ps k (h, e) =
    let small : ltb c 65536 ≡ true = ground arith in ((omega arith, h), rw (small, e) refl)

Spells-pair :
    (c d : ℕ) (s : JsString) (ps : List ℕ)
    → is_high c ≡ true
    → is_low d ≡ true
    → Spells s ps
    → Spells (c ∷ d ∷ s) (join c d ∷ ps)
Spells-pair c d s ps hi lo (h, e) =
    let (p, q) = units-join c d ps hi lo in ((p, h), q ∙ ap (λ t. c ∷ d ∷ t) e)

pub map-some :
    {A B : Type 0} (f : A → B) (o : Option A) (b : B)
    → Option.map f o ≡ some b
    → (a : A) × (o ≡ some a) × (f a ≡ b)
map-some f none b e = cc
map-some f (some a) b e = (a, refl, ground arith)

-- The code points of a text are code points, and spell the text.
pub code_points-Spells :
    (s : JsString) (ps : List ℕ) → All IsUnit s → code_points s ≡ some ps → Spells s ps
unfolding code_points units
code_points-Spells [] ps h e =
    let same : [] ≡ ps = ground arith in subst (Spells []) same (tt, refl)
code_points-Spells (c ∷ []) ps (k, h) e = elim (Bool-cases (is_high c || is_low c)) [
  | inl b ↦ absurd (ground arith)
  | inr b ↦
      let same : c ∷ [] ≡ ps = ground arith in
      subst (Spells (c ∷ [])) same (Spells-unit c [] [] k (tt, refl))
]
code_points-Spells (c ∷ d ∷ s) ps (k, (j, h)) e = elim (Bool-cases (is_high c)) [
  | inl hi ↦ elim (Bool-cases (is_low d)) [
    | inl lo ↦
        let (qs, found, same) = map-some (◌∷◌ (join c d)) (code_points s) ps (ground arith) in
        subst (Spells (c ∷ d ∷ s)) same
          (Spells-pair c d s qs hi lo (code_points-Spells s qs h found))
    | inr lo ↦ absurd (ground arith)
  ]
  | inr hi ↦ elim (Bool-cases (is_low c)) [
    | inl lo ↦ absurd (ground arith)
    | inr lo ↦
        let (qs, found, same) = map-some (◌∷◌ c) (code_points (d ∷ s)) ps (ground arith) in
        subst (Spells (c ∷ d ∷ s)) same
          (Spells-unit c (d ∷ s) qs k (code_points-Spells (d ∷ s) qs (j, h) found))
  ]
]

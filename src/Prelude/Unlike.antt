-- ===== src/Prelude/Unlike.antt =====
-- Lists of texts without repetitions, as the pages keep them for a set.
use ldapwarden.Prelude.{
  Bool-cases, JsString, ◌===◌, ===_comm, ===_eq, unique_from, not, true, ◌&&◌, includes, filter,
  ◌≡◌, refl, ◌∙◌, inl, inr, Bool, false, ◌||◌, List, [], ◌∷◌, ◌++◌, arith,
}

-- No value stands behind one that it equals.
abbrev pub AreUnlike : List JsString → Type 0
AreUnlike [] = Unit {0}
AreUnlike (v ∷ vs) = (includes v vs ≡ false) × AreUnlike vs

pub includes-append :
    (s v : JsString) (vs : List JsString) → includes s (vs ++ v ∷ []) ≡ (includes s vs || v === s)
includes-append s v [] = ground arith
includes-append s v (w ∷ vs) = ground (arith, includes-append s v vs)

pub AreUnlike-append :
    (v : JsString) (vs : List JsString)
    → AreUnlike vs
    → includes v vs ≡ false
    → AreUnlike (vs ++ v ∷ [])
AreUnlike-append v [] a h = (refl, tt)
AreUnlike-append v (w ∷ vs) (b, a) h =
    let other : (v === w) ≡ false = ===_comm v w ∙ ground arith in
    (includes-append w v vs ∙ rw (b, other) refl, AreUnlike-append v vs a (ground arith))

pub includes-filter :
    (p : JsString → Bool) (s : JsString) (vs : List JsString)
    → includes s vs ≡ false
    → includes s (filter p vs) ≡ false
includes-filter p s [] h = refl
includes-filter p s (w ∷ vs) h = elim (Bool-cases (p w)) [
  | inl e ↦ rw e (ground (arith, includes-filter p s vs))
  | inr e ↦ rw e (includes-filter p s vs (ground arith))
]

pub AreUnlike-filter :
    (p : JsString → Bool) (vs : List JsString) → AreUnlike vs → AreUnlike (filter p vs)
AreUnlike-filter p [] a = tt
AreUnlike-filter p (w ∷ vs) (b, a) = elim (Bool-cases (p w)) [
  | inl e ↦ rw e (includes-filter p w vs b, AreUnlike-filter p vs a)
  | inr e ↦ rw e (AreUnlike-filter p vs a)
]

-- What is kept of a list past the values seen are its values that have not been seen.
pub includes-unique_from :
    (s : JsString) (seen xs : List JsString)
    → includes s (unique_from seen xs) ≡ (not (includes s seen) && includes s xs)
unfolding unique_from
includes-unique_from s seen [] = ground arith
includes-unique_from s seen (x ∷ xs) =
    let skip = includes-unique_from s seen xs in
    let keep = includes-unique_from s (x ∷ seen) xs in
    elim (Bool-cases (includes x seen)) [
      | inl e ↦
          rw (e, skip)
            (elim (Bool-cases (x === s)) [
              | inl f ↦
                  let same : x ≡ s = ===_eq x s f in
                  let there : includes s seen ≡ true = rw (← same) e in rw (f, there) refl
              | inr f ↦ rw f refl
            ])
      | inr e ↦
          rw (e, keep)
            (elim (Bool-cases (x === s)) [
              | inl f ↦
                  let same : x ≡ s = ===_eq x s f in
                  let new : includes s seen ≡ false = rw (← same) e in rw (f, new) refl
              | inr f ↦ rw f refl
            ])
    ]

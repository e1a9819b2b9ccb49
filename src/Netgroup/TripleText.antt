-- ===== src/Netgroup/TripleText.antt =====
-- The stored spelling of a triple, and the check that the CSV import applies to it:
-- `formatTriple` and NETGROUP_TRIPLE_TEXT of web/src/lib/netgroup.ts.
use ldapwarden.Prelude.{
  ◌==◌, if◌then◌else◌, Bool-cases, JsString, is_empty, cut_eq, All, ℕ, zero, suc, ◌≡◌, refl, ap,
  ◌∙◌, ◌≢◌, ◌↔◌, inl, inr, Bool, true, false, ◌&&◌, ◌||◌, [], ◌∷◌, ◌++◌, arith,
}
use ldapwarden.Netgroup.Types.{NetgroupTriple}

unfoldable pub format_triple : NetgroupTriple → JsString
format_triple t = b'(' ∷ (t.host ++ (b',' ∷ (t.user ++ (b',' ∷ (t.domain ++ (b')' ∷ []))))))

-- A character of `[^,()]`.
abbrev pub IsPlain : ℕ → Type 0
IsPlain c = (c ≢ b',') × (c ≢ b'(') × (c ≢ b')')

-- The regular expression /^\([^,()]*,[^,()]*,[^,()]*\)$/ after its first character, as an
-- automaton: `commas` are the commas still to come.
unfoldable pub slots : ℕ → JsString → Bool
slots commas [] = false
slots zero (c ∷ s) =
    let rest = slots zero s in
    if c == b')' then is_empty s else if c == b',' || c == b'(' then false else rest
slots (suc commas) (c ∷ s) =
    let next = slots commas s in
    let rest = slots (suc commas) s in
    if c == b',' then next else if c == b')' || c == b'(' then false else rest

unfoldable pub netgroup_triple_text : JsString → Bool
netgroup_triple_text [] = false
netgroup_triple_text (c ∷ s) = c == b'(' && slots 2 s

-- A triple whose slots hold none of the delimiters.
pub record IsCleanTriple (t : NetgroupTriple) : Type 0 where
  pub host : All IsPlain t.host
  pub user : All IsPlain t.user
  pub domain : All IsPlain t.domain

-- A slot up to its delimiter.
slots_comma :
    (commas : ℕ) (v rest : JsString)
    → All IsPlain v
    → slots (suc commas) (v ++ (b',' ∷ rest)) ≡ slots commas rest
unfolding slots
slots_comma commas [] rest h = refl
slots_comma commas (c ∷ v) rest (p, h) = ground (arith, slots_comma commas v rest h)

slots_close : (v : JsString) → All IsPlain v → slots 0 (v ++ (b')' ∷ [])) ≡ true
unfolding slots
slots_close [] h = refl
slots_close (c ∷ v) (p, h) = ground (arith, slots_close v h)

pub netgroup_triple_text-format_triple :
    (t : NetgroupTriple) → IsCleanTriple t → netgroup_triple_text (format_triple t) ≡ true
unfolding netgroup_triple_text format_triple
netgroup_triple_text-format_triple t h =
    slots_comma 1 t.host _ h.host ∙ slots_comma 0 t.user _ h.user ∙ slots_close t.domain h.domain

-- Reading a slot back.
eq-nil_of_is_empty : (s : JsString) → is_empty s ≡ true → s ≡ []
eq-nil_of_is_empty [] h = refl
eq-nil_of_is_empty (c ∷ s) h = cc

read_close :
    (s : JsString) → slots 0 s ≡ true → (v : JsString) × All IsPlain v × (s ≡ v ++ (b')' ∷ []))
unfolding slots
read_close [] h = cc
read_close (c ∷ s) h = elim (Bool-cases (c == b')')) [
  | inl e ↦ ([], tt, ground (arith, eq-nil_of_is_empty s))
  | inr e ↦
      let (v, plain, same) = read_close s (ground arith) in
      (c ∷ v, ((ground arith, ground arith, ground arith), plain), ap (◌∷◌ c) same)
]

read_comma :
    (commas : ℕ) (s : JsString)
    → slots (suc commas) s ≡ true
    → (v rest : JsString) × All IsPlain v × (s ≡ v ++ (b',' ∷ rest)) × (slots commas rest ≡ true)
unfolding slots
read_comma commas [] h = cc
read_comma commas (c ∷ s) h = elim (Bool-cases (c == b',')) [
  | inl e ↦ ([], s, tt, ground arith, ground arith)
  | inr e ↦
      let (v, rest, plain, same, more) = read_comma commas s (ground arith) in
      (c ∷ v, rest, ((ground arith, ground arith, ground arith), plain), ap (◌∷◌ c) same, more)
]

read_triple :
    (s : JsString)
    → netgroup_triple_text s ≡ true
    → (t : NetgroupTriple) × IsCleanTriple t × (s ≡ format_triple t)
unfolding netgroup_triple_text format_triple
read_triple [] h = cc
read_triple (c ∷ s) h =
    let (host, r, clean_host, split_host, more) = read_comma 1 s (ground arith) in
    let (user, q, clean_user, split_user, last) = read_comma 0 r more in
    let (domain, clean_domain, split_domain) = read_close q last in
    (
      record { host = host; user = user; domain = domain },
      record { host = clean_host; user = clean_user; domain = clean_domain },
      ground arith,
    )

-- The import's check accepts exactly the stored spellings of triples whose slots are free of
-- commas and parentheses.
pub netgroup_triple_text_iff :
    (s : JsString)
    → (netgroup_triple_text s ≡ true)
      ↔ ((t : NetgroupTriple) × IsCleanTriple t × (s ≡ format_triple t))
netgroup_triple_text_iff s =
    (read_triple s, λ (t, clean, same). rw same (netgroup_triple_text-format_triple t clean))

abbrev after_user : NetgroupTriple → JsString
after_user t = t.domain ++ (b')' ∷ [])

abbrev after_host : NetgroupTriple → JsString
after_host t = t.user ++ (b',' ∷ after_user t)

-- No two triples with clean slots have the same spelling.
pub format_triple-injective :
    (t u : NetgroupTriple)
    → IsCleanTriple t
    → IsCleanTriple u
    → format_triple t ≡ format_triple u
    → t ≡ u
unfolding format_triple
format_triple-injective t u h k e =
    let (host, e₁) =
      cut_eq IsPlain t.host u.host b',' (after_host t) (after_host u) (λ p. p.0 refl) h.host k.host
        (cc) in
    let (user, e₂) =
      cut_eq IsPlain t.user u.user b',' (after_user t) (after_user u) (λ p. p.0 refl) h.user k.user
        e₁ in
    let (domain, _) =
      cut_eq IsPlain t.domain u.domain b')' [] [] (λ p. p.2 refl) h.domain k.domain e₂ in
    λ i. record { host = host i; user = user i; domain = domain i }

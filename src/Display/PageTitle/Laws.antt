-- ===== src/Display/PageTitle/Laws.antt =====
-- Lemmas on pageTitle (web/src/lib/page-title.ts), for the page of an entry.
use mathlib.Core.Bool.{false≢true}
use ldapwarden.Prelude.{
  ◌==◌, if◌then◌else◌, Bool-cases, some-injective, split_on, split_on-none, split_on-append,
  JsString, text, ◌===◌, look_up, is_empty, All, All-weaken, ℕ, ◌≡◌, refl, sym, ap, ◌∙◌, subst, ◌≢◌,
  inl, inr, Bool, true, false, not, ◌||◌, Option, none, some, [], ◌∷◌, ◌++◌, arith,
}
use ldapwarden.Dn.Encoding.{IsByte}
use ldapwarden.Dn.UrlAlphabet.{IsUrlSafe}
use ldapwarden.Dn.Base64.{atob, decode, drop_padding}
use ldapwarden.Dn.Codec.{encode_dn, decode_dn, pad}
use ldapwarden.Dn.RoundTrip.{decode_dn-encode_dn}
use ldapwarden.Display.PageTitle.{
  app_name, section_titles, subpage_titles, after_type, take_value, unescape, first_rdn_value,
  encoded_rdn_value, entry_name, named_title, segments_title, page_title, is_line_end,
}

-- A value as RFC 4514 writes it where it holds commas and backslashes.
abbrev pub escaped : JsString → JsString
escaped [] = []
escaped (c ∷ s) =
    let rest = escaped s in if c == b',' || c == b'\\' then b'\\' ∷ c ∷ rest else c ∷ rest

take_value-plain :
    (c : ℕ) (s : JsString)
    → (c == b'\\') ≡ false
    → (c == b',') ≡ false
    → take_value (c ∷ s) ≡ c ∷ take_value s
unfolding take_value
take_value-plain c [] h k = rw (h, k) refl
take_value-plain c (d ∷ s) h k = rw (h, k) refl

unescape-plain : (c : ℕ) (s : JsString) → (c == b'\\') ≡ false → unescape (c ∷ s) ≡ c ∷ unescape s
unfolding unescape
unescape-plain c [] h = refl
unescape-plain c (d ∷ s) h = rw h refl

special-line_end : (c : ℕ) → (c == b',' || c == b'\\') ≡ true → is_line_end c ≡ false
special-line_end c h = ground arith

take_value-escaped : (v rest : JsString) → take_value (escaped v ++ (b',' ∷ rest)) ≡ escaped v
unfolding take_value
take_value-escaped [] [] = refl
take_value-escaped [] (d ∷ rest) = refl
take_value-escaped (c ∷ v) rest = elim (Bool-cases (c == b',' || c == b'\\')) [
  | inl e ↦ rw e (rw (special-line_end c e, take_value-escaped v rest) refl)
  | inr e ↦
      let plain = take_value-plain c (escaped v ++ (b',' ∷ rest)) (ground arith) (ground arith) in
      rw e (plain ∙ ap (◌∷◌ c) (take_value-escaped v rest))
]

unescape-escaped : (v : JsString) → unescape (escaped v) ≡ v
unfolding unescape
unescape-escaped [] = refl
unescape-escaped (c ∷ v) = elim (Bool-cases (c == b',' || c == b'\\')) [
  | inl e ↦ rw e (rw (special-line_end c e, unescape-escaped v) refl)
  | inr e ↦ rw e (unescape-plain c (escaped v) (ground arith) ∙ ap (◌∷◌ c) (unescape-escaped v))
]

after_type-append :
    (started : Bool) (type s : JsString)
    → All (λ c. (c ≢ b'=') × (c ≢ b',')) type
    → (started || not (is_empty type)) ≡ true
    → after_type started (type ++ (b'=' ∷ s)) ≡ some s
unfolding after_type
after_type-append started [] s h f = let e : started ≡ true = ground arith in rw e refl
after_type-append started (c ∷ type) s ((p, q), h) f =
    let e : (c == b'=') ≡ false = ground arith in
    let g : (c == b',') ≡ false = ground arith in rw (e, g) (after_type-append true type s h refl)

filled-escaped : (v : JsString) → is_empty v ≡ false → is_empty (escaped v) ≡ false
filled-escaped [] h = h
filled-escaped (c ∷ v) h = ground arith

first_rdn_value-escaped :
    (type value rest : JsString)
    → All (λ c. (c ≢ b'=') × (c ≢ b',')) type
    → is_empty type ≡ false
    → is_empty value ≡ false
    → first_rdn_value (type ++ (b'=' ∷ (escaped value ++ (b',' ∷ rest)))) ≡ some value
unfolding first_rdn_value
first_rdn_value-escaped type value rest h f g =
    let started : (false || not (is_empty type)) ≡ true = rw f refl in
    rw
      (
        after_type-append false type (escaped value ++ (b',' ∷ rest)) h started,
        take_value-escaped value rest,
        filled-escaped value g,
        unescape-escaped value,
      )
      refl

filled_section :
    (seg section : JsString) → look_up seg section_titles ≡ some section → is_empty seg ≡ false
unfolding look_up ◌===◌
filled_section [] section h = cc
filled_section (c ∷ seg) section h = refl

filled_append : (s t : JsString) → is_empty s ≡ false → is_empty (s ++ t) ≡ false
filled_append [] t h = cc
filled_append (c ∷ s) t h = refl

-- The page of an entry has the value of the entry's first RDN in its title, with commas and
-- backslashes as they are, and the name of its section; decodeURIComponent is taken to leave what
-- encodeDN makes as it is.
module _ (decode_uri : JsString → Option JsString)
    (plain : (s : JsString) → All IsUrlSafe s → decode_uri s ≡ some s) where
  encoded_value :
      (dn e value : JsString)
      → All IsByte dn
      → encode_dn dn ≡ some e
      → first_rdn_value dn ≡ some value
      → encoded_rdn_value decode_uri e ≡ some value
  unfolding encoded_rdn_value
  encoded_value dn e value b h f =
      let (e', encoded, safe, back) = decode_dn-encode_dn dn b in
      let same : e' ≡ e = some-injective (sym encoded ∙ h) in
      let kept : decode_uri e ≡ some e = rw (← same) (plain e' safe) in
      let known : decode_dn e ≡ some dn = rw (← same) back in rw (kept, known, f) refl

  encoded_filled :
      (dn e : JsString)
      → All IsByte dn
      → encode_dn dn ≡ some e
      → is_empty dn ≡ false
      → is_empty e ≡ false
  unfolding decode_dn atob decode pad drop_padding
  encoded_filled dn [] b h f =
      let (e', encoded, _, back) = decode_dn-encode_dn dn b in
      let same : e' ≡ [] = some-injective (sym encoded ∙ h) in
      let empty : some [] ≡ some dn = subst (λ s. decode_dn s ≡ some dn) same back in
      absurd (false≢true (sym f ∙ ap is_empty (sym (some-injective empty))))
  encoded_filled dn (c ∷ e) b h f = refl

  encoded_slashless :
      (dn e : JsString) → All IsByte dn → encode_dn dn ≡ some e → All (λ c. c ≢ b'/') e
  encoded_slashless dn e b h =
      let (e', encoded, safe, _) = decode_dn-encode_dn dn b in
      let same : e' ≡ e = some-injective (sym encoded ∙ h) in
      rw (← same) (All-weaken e' (λ c q. ground arith) safe)

  pub page_title-encode_dn :
      (seg section e dn value type rest : JsString)
      → All (λ c. c ≢ b'/') seg
      → look_up seg section_titles ≡ some section
      → All (λ c. (c ≢ b'=') × (c ≢ b',')) type
      → is_empty type ≡ false
      → is_empty value ≡ false
      → dn ≡ type ++ (b'=' ∷ (escaped value ++ (b',' ∷ rest)))
      → All IsByte dn
      → encode_dn dn ≡ some e
      → look_up e subpage_titles ≡ none
      → page_title decode_uri (b'/' ∷ (seg ++ (b'/' ∷ e)))
        ≡ value ++ text " · " ++ (section ++ text " · " ++ app_name)
  unfolding page_title
  page_title-encode_dn seg section e dn value type rest a k t f g d b h n =
      let cut : split_on b'/' (b'/' ∷ (seg ++ (b'/' ∷ e))) ≡ [] ∷ seg ∷ e ∷ [] =
        split_on-append b'/' [] (seg ++ (b'/' ∷ e)) tt
        ∙ ap (◌∷◌ []) (
            split_on-append b'/' seg e a
            ∙ ap (◌∷◌ seg) (split_on-none b'/' e (encoded_slashless dn e b h))) in
      let named =
        encoded_value dn e value b h (rw d (first_rdn_value-escaped type value rest t f g)) in
      let filled =
        encoded_filled dn e b h
          (rw d (filled_append type (b'=' ∷ (escaped value ++ (b',' ∷ rest))) f)) in
      rw
        (
          cut,
          filled_section seg section k,
          segments_title,
          k,
          filled,
          named_title,
          entry_name,
          n,
          named,
          g,
        )
        refl

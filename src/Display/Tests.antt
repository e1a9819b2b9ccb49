-- ===== src/Display/Tests.antt =====
-- The theorems on titles and colours at concrete inputs, and titles as they are.
use ldapwarden.Prelude.{
  ltb, ◌==◌, split_on, JsString, text, ◌===◌, look_up, all, All, ℕ, ◌≡◌, refl, ◌≢◌, true, not, none,
  some, [], ◌∷◌, ◌++◌, arith,
}
use ldapwarden.Dn.Base64.{btoa, encode, digit}
use ldapwarden.Dn.Encoding.{IsByte}
use ldapwarden.Dn.Codec.{encode_dn, drop_trailing}
use ldapwarden.Display.Tones.{assign_tones, blue, emerald, is_before}
use ldapwarden.Display.Tones.Laws.{assign_tones_same}
use ldapwarden.Display.PageTitle.{page_title, section_titles, subpage_titles}
use ldapwarden.Display.PageTitle.Laws.{page_title-encode_dn}

abbrev dn_of_jane : JsString
dn_of_jane = text "cn=Doe\\, Jane,ou=People"

abbrev dn_in_url : JsString
dn_in_url = text "Y249RG9lXCwgSmFuZSxvdT1QZW9wbGU"

bytes : (s : JsString) → all (λ c. ltb c 256) s ≡ true → All IsByte s
bytes [] h = tt
bytes (c ∷ s) h = (ground arith, bytes s (ground arith))

apart : (d : ℕ) (s : JsString) → all (λ c. not (c == d)) s ≡ true → All (λ c. c ≢ d) s
apart d [] h = tt
apart d (c ∷ s) h = (λ e. ground arith, apart d s (ground arith))

url_of_jane : encode_dn dn_of_jane ≡ some dn_in_url
unfolding encode_dn btoa encode digit drop_trailing
url_of_jane = refl

no_subpage : look_up dn_in_url subpage_titles ≡ none
unfolding look_up ◌===◌
no_subpage = refl

users_title : look_up (text "users") section_titles ≡ some (text "Users")
unfolding look_up ◌===◌
users_title = refl

page_title-encode_dn_example :
    page_title some (text "/users/" ++ dn_in_url) ≡ text "Doe, Jane · Users · LDAP Warden"
page_title-encode_dn_example =
    page_title-encode_dn some (λ s h. refl) (text "users") (text "Users") dn_in_url dn_of_jane
      (text "Doe, Jane") (text "cn") (text "ou=People") (apart b'/' (text "users") refl) users_title
      ((λ e. ground arith, λ e. ground arith), ((λ e. ground arith, λ e. ground arith), tt)) refl
      refl refl (bytes dn_of_jane refl) url_of_jane no_subpage

assign_tones_same_example :
    assign_tones (text "staff" ∷ text "intern" ∷ text "staff" ∷ [])
    ≡ assign_tones (text "intern" ∷ text "staff" ∷ [])
assign_tones_same_example =
    assign_tones_same (text "staff" ∷ text "intern" ∷ text "staff" ∷ [])
      (text "intern" ∷ text "staff" ∷ []) (λ s. ground arith)

two_tones :
    assign_tones (text "staff" ∷ text "intern" ∷ [])
    ≡ (text "intern", blue) ∷ (text "staff", emerald) ∷ []
unfolding assign_tones ◌===◌ is_before
two_tones = refl

new_user_title : page_title some (text "/users/new") ≡ text "New · Users · LDAP Warden"
unfolding page_title split_on look_up ◌===◌
new_user_title = refl

-- ===== src/Display/AuditLinks.antt =====
-- The link of an entry of the audit log: web/src/lib/audit-links.ts.
use ldapwarden.Prelude.{
  if◌then◌else◌, Bool-cases, Option-cases, some-injective, ◌>>=◌, JsString, text, look_up, is_empty,
  contains, All, ◌≡◌, refl, sym, ap, ◌∙◌, inl, inr, false, ◌||◌, Option, none, some, List, [], ◌∷◌,
  arith,
}
use ldapwarden.Dn.Encoding.{IsByte}
use ldapwarden.Dn.Codec.{encode_dn, decode_dn}
use ldapwarden.Dn.RoundTrip.{decode_dn-encode_dn}

-- What the function reads of an entry.
pub record AuditEntry : Type 0 where
  pub action : JsString
  pub resource_type : JsString
  pub resource_dn : JsString

pub record ResourceLink : Type 0 where
  pub to : JsString
  pub dn : JsString

-- `route`.
abbrev pub resource_routes : List (JsString × JsString)
resource_routes =
    (text "user", text "/users/$dn")
    ∷ (text "group", text "/groups/$dn")
    ∷ (text "sudorole", text "/sudo-roles/$dn")
    ∷ (text "pwdpolicy", text "/password-policies/$dn")
    ∷ (text "netgroup", text "/netgroups/$dn")
    ∷ []

-- The outer `none` is an error of encodeDN, the inner one no link.
unfoldable pub resource_link : AuditEntry → Option (Option ResourceLink)
resource_link log =
    if is_empty log.resource_dn || contains (text "delete") log.action
    then some none
    else elim (look_up log.resource_type resource_routes) [
      | none ↦ some none
      | some to ↦ do dn ← encode_dn log.resource_dn; some (some (record { to = to; dn = dn }))
    ]

-- A link leads to the very entry that the log names, and there is none where it was deleted.
pub resource_link-decode_dn :
    (log : AuditEntry) (link : ResourceLink)
    → All IsByte log.resource_dn
    → resource_link log ≡ some (some link)
    → (contains (text "delete") log.action ≡ false)
      × (look_up log.resource_type resource_routes ≡ some link.to)
      × (decode_dn link.dn ≡ some log.resource_dn)
unfolding resource_link
resource_link-decode_dn log link b h =
    let (e, encoded, _, back) = decode_dn-encode_dn log.resource_dn b in
    elim (Bool-cases (is_empty log.resource_dn || contains (text "delete") log.action)) [
      | inl g ↦ let q : some no_link ≡ some (some link) = rw (← h, g) refl in cc
      | inr g ↦ elim (Option-cases (look_up log.resource_type resource_routes)) [
        | inl q ↦ let r : some no_link ≡ some (some link) = rw (← h, g, q) refl in cc
        | inr (to, q) ↦
            let made : ResourceLink = record { to = to; dn = e } in
            let r : Option.some (Option.some made) ≡ some (some link) =
              rw (← h, g, q, encoded) refl in
            let same : made ≡ link = some-injective (some-injective r) in
            (ground arith, q ∙ ap (λ l. some l.to) same, ap (λ l. decode_dn l.dn) (sym same) ∙ back)
      ]
    ]
  where
    no_link : Option ResourceLink
    no_link = none

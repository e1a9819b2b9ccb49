-- ===== src/UserPage/Security/Laws.antt =====
-- The dialog of a rename, the change of a password, and the choice of a policy.
use ldapwarden.Prelude.{
  Bool-cases, JsString, ◌===◌, ===_refl, ===_iff, is_empty, any, any-append, ◌≡◌, refl, ◌↔◌, inl,
  inr, Bool, true, false, ◌||◌, Option, none, some, List, [], ◌∷◌, map, arith,
}
use ldapwarden.UserPage.Security.{
  uid_pattern, new_uid_valid, can_rename, new_uid_messages, submitted_password, passwords_match,
  Policy, SelectOption, policy_option, default_option, unlisted_option, policy_options,
  server_policy,
}

uid_pattern_filled : (s : JsString) → uid_pattern s ≡ true → is_empty s ≡ false
unfolding uid_pattern
uid_pattern_filled [] h = cc
uid_pattern_filled (c ∷ s) h = refl

-- A rename can be sent exactly if none is on its way, the current name has been typed once more,
-- and the new one is not empty and has no message under it.
pub can_rename_iff :
    (uid new_uid confirm_uid : JsString) (pending : Bool)
    → (can_rename uid new_uid confirm_uid pending ≡ true) ↔ (
        (pending ≡ false)
        × (confirm_uid ≡ uid)
        × (is_empty new_uid ≡ false)
        × (new_uid_messages uid new_uid ≡ []))
unfolding can_rename new_uid_valid new_uid_messages
can_rename_iff uid new_uid confirm_uid pending = (
  λ h. ground (arith, ===_iff confirm_uid uid, uid_pattern_filled new_uid),
  λ h. ground (arith, ===_iff confirm_uid uid),
)

-- A password is submitted exactly if the two fields are reported as matching, and then it is what
-- stands in both of them.
pub submitted_password_iff :
    (password confirm value : JsString)
    → (submitted_password password confirm ≡ some value)
      ↔ ((passwords_match password confirm ≡ true) × (value ≡ password) × (value ≡ confirm))
unfolding submitted_password passwords_match
submitted_password_iff password confirm value =
    (λ h. ground (arith, ===_iff password confirm), λ h. ground (arith, ===_iff password confirm))

has-policy_option :
    (value : JsString) (listed : List Policy)
    → any (λ o. o.value === value) (map policy_option listed) ≡ any (λ p. p.dn === value) listed
unfolding policy_option
has-policy_option value [] = refl
has-policy_option value (p ∷ listed) = rw (has-policy_option value listed) refl

default_option-value : (o : Option JsString) → (default_option o).value ≡ []
unfolding default_option
default_option-value none = refl
default_option-value (some dn) = refl

-- The select always has an option for the policy that the server names for the entry, wherever the
-- list of policies stops.
pub policy_options-server_policy :
    (listed : List Policy) (applied lockout_policy : Option JsString)
    → any (λ o. o.value === server_policy applied) (policy_options listed applied lockout_policy)
      ≡ true
unfolding policy_options server_policy unlisted_option default_option
policy_options-server_policy listed none lockout_policy =
    rw (default_option-value lockout_policy, ===_refl []) refl
policy_options-server_policy listed (some []) lockout_policy =
    rw (default_option-value lockout_policy, ===_refl []) refl
policy_options-server_policy listed (some (c ∷ dn)) lockout_policy =
    let applied = c ∷ dn in
    let split =
      any-append (λ (o : SelectOption). o.value === applied) (map policy_option listed)
        (unlisted_option (some applied) listed) in
    let listed_too = has-policy_option applied listed in
    elim (Bool-cases (any (λ (p : Policy). p.dn === applied) listed)) [
      | inl e ↦ rw (split, listed_too, e) (or_true ([] === applied))
      | inr e ↦ rw (split, listed_too, e, ===_refl applied) (or_true ([] === applied))
    ]
  where
    or_true : (b : Bool) → (b || true) ≡ true
    or_true b = ground arith

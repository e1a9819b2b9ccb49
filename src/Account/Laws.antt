-- ===== src/Account/Laws.antt =====
-- What the status of an account says, and when.
use ldapwarden.Prelude.{
  leb, Bool-cases, ◌>>=◌, JsString, ◌===◌, ===_iff, ℕ, ◌+◌, ◌*◌, ◌≤◌, ◌≡◌, refl, sym, ap, ◌∙◌, inl,
  inr, Bool, true, false, not, ◌&&◌, ◌||◌, Option, none, some, [], ◌∷◌, arith,
}
use ldapwarden.Timestamp.Parse.{parse_ldap_timestamp, take_digits}
use ldapwarden.Account.Lock.{
  AccountStatusFields, account_expiration, is_locked, has_lapsed_lock, permanent_lock_value,
  lock_value, instant_of_lock, locked_at,
}
use ldapwarden.Account.Status.{
  day_length, days_left, has_passed, locked_status, working_status, expiring_status, status_of,
  is_hidden,
}

permanent-none : parse_ldap_timestamp permanent_lock_value ≡ none
unfolding parse_ldap_timestamp take_digits
permanent-none = refl

empty-none : parse_ldap_timestamp [] ≡ none
unfolding parse_ldap_timestamp take_digits
empty-none = refl

instant_of_lock-parse : (o : Option JsString) → instant_of_lock o ≡ (o >>= parse_ldap_timestamp)
unfolding instant_of_lock
instant_of_lock-parse none = refl
instant_of_lock-parse (some []) = sym empty-none
instant_of_lock-parse (some (c ∷ s)) = elim (Bool-cases ((c ∷ s) === permanent_lock_value)) [
  | inl e ↦
      rw e (
        sym (ap parse_ldap_timestamp ((===_iff (c ∷ s) permanent_lock_value).0 e) ∙ permanent-none))
  | inr e ↦ rw e refl
]

-- The instant of a lock is what its stored value parses to: the value of a manual lock, which the
-- code sets apart, names no instant by itself.
pub locked_at-parse :
    (user : AccountStatusFields) → locked_at user ≡ (lock_value user >>= parse_ldap_timestamp)
unfolding locked_at
locked_at-parse user = instant_of_lock-parse (lock_value user)

-- The days left, rounded up, against the instant itself.
days_left-leb :
    (now expires_at d : ℕ)
    → now ≤ expires_at
    → leb (days_left now expires_at) d ≡ leb expires_at (now + d * day_length)
unfolding days_left
days_left-leb now expires_at d h = ground arith

-- An expiry within so many days.
abbrev pub falls_within : ℕ → ℕ → Option ℕ → Bool
falls_within days now none = false
falls_within days now (some expires_at) = leb expires_at (now + days * day_length)

module _ (parse_date : JsString → Option ℕ) (locale_string : ℕ → JsString) where
  working_status-notable :
      (now : ℕ) (o : Option ℕ)
      → has_passed now o ≡ false
      → (working_status parse_date locale_string now o).notable ≡ falls_within 30 now o
  unfolding working_status expiring_status
  working_status-notable now none h = refl
  working_status-notable now (some e) h = days_left-leb now e 30 (ground arith)

  -- Where only what needs attention is shown, an account is shown exactly when its lock holds, or
  -- its expiry has passed, or it expires within thirty days and carries no lapsed lock: a lapsed
  -- lock hides an expiry that is due.
  pub is_hidden_iff :
      (now : ℕ) (user : AccountStatusFields)
      → is_hidden parse_date locale_string true now user
        ≡ not (
            is_locked user
            || has_passed now (account_expiration user)
            || (not (has_lapsed_lock user) && falls_within 30 now (account_expiration user)))
  unfolding is_hidden status_of locked_status
  is_hidden_iff now user = elim (Bool-cases (is_locked user)) [
    | inl l ↦ rw l refl
    | inr l ↦ elim (Bool-cases (has_passed now (account_expiration user))) [
      | inl p ↦ rw (l, p) refl
      | inr p ↦ elim (Bool-cases (has_lapsed_lock user)) [
        | inl q ↦ rw (l, p, q) refl
        | inr q ↦ rw (l, p, q, working_status-notable now (account_expiration user) p) refl
      ]
    ]
  ]

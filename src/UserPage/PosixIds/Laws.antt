-- ===== src/UserPage/PosixIds/Laws.antt =====
-- What the dialog sends.
use ldapwarden.Prelude.{
  Bool-cases, trim, JsString, text, ===_iff, is_empty, ℕ, ◌≡◌, refl, ◌≢◌, inl, inr, true, false,
  ◌||◌, Option, none, some, arith,
}
use ldapwarden.Values.{
  nan, infinity, minus_infinity, below_zero, fraction, JsNumber, whole, Fields, end, field, number,
}
use ldapwarden.UserPage.PosixIds.{
  is_bad, is_new, PosixIds, PosixInput, parsed, bad_number, changes_something, can_change,
  with_number, posix_body,
}

-- The fields of a body for the two numbers: natural ones that differ from those of the account.
pub data IsNumbersOf (u : PosixIds) : Fields → Type 0 where
  uid_only :
      (n : ℕ)
      → u.uid_number ≢ some n
      → IsNumbersOf u (field (text "uidNumber") (number (whole n)) end)
  gid_only :
      (m : ℕ)
      → u.gid_number ≢ some m
      → IsNumbersOf u (field (text "gidNumber") (number (whole m)) end)
  both :
      (n m : ℕ)
      → u.uid_number ≢ some n
      → u.gid_number ≢ some m
      → IsNumbersOf u (
          field
            (text "uidNumber")
            (number (whole n))
            (field (text "gidNumber") (number (whole m)) end))

-- A field of the dialog, with no message under it: it is empty, or it names the number that the
-- account has, or a natural number that is another one.
data Entry (current : Option ℕ) : Option JsNumber → Type 0 where
  kept : (o : Option JsNumber) → is_new o current ≡ false → Entry current o
  changed :
      (n : ℕ)
      → current ≢ some n
      → is_new (some (whole n)) current ≡ true
      → Entry current (some (whole n))

is_new-differs :
    (n : ℕ) (current : Option ℕ) → is_new (some (whole n)) current ≡ true → current ≢ some n
unfolding is_new
is_new-differs n none h e = cc
is_new-differs n (some m) h e = ground arith

entry_number :
    (current : Option ℕ) (n : JsNumber) → is_bad (some n) ≡ false → Entry current (some n)
unfolding is_bad
entry_number current (whole n) h = elim (Bool-cases (is_new (some (whole n)) current)) [
  | inl e ↦ changed n (is_new-differs n current e) e
  | inr e ↦ kept (some (whole n)) e
]
entry_number current nan h = cc
entry_number current infinity h = cc
entry_number current minus_infinity h = cc
entry_number current (below_zero n) h = cc
entry_number current (fraction s) h = cc

module _ (parse : JsString → JsNumber) where
  entry_of :
      (current : Option ℕ) (value : JsString)
      → bad_number parse value ≡ false
      → Entry current (parsed parse value)
  unfolding bad_number parsed is_new
  entry_of current value h = elim (Bool-cases (is_empty (trim value))) [
    | inl e ↦ rw e (kept none refl)
    | inr e ↦ rw e (entry_number current (parse value) (rw e at h))
  ]

  with_number_kept :
      (key : JsString) (o : Option JsNumber) (current : Option ℕ) (rest : Fields)
      → is_new o current ≡ false
      → with_number parse key o current rest ≡ rest
  unfolding with_number
  with_number_kept key none current rest h = refl
  with_number_kept key (some n) current rest h = rw h refl

  with_number_new :
      (key : JsString) (n : JsNumber) (current : Option ℕ) (rest : Fields)
      → is_new (some n) current ≡ true
      → with_number parse key (some n) current rest ≡ field key (number n) rest
  unfolding with_number
  with_number_new key n current rest h = rw h refl

  numbers_of :
      (u : PosixIds) (a b : Option JsNumber)
      → Entry u.uid_number a
      → Entry u.gid_number b
      → (is_new a u.uid_number || is_new b u.gid_number) ≡ true
      → IsNumbersOf u (
          with_number parse
            (text "uidNumber")
            a
            u.uid_number
            (with_number parse (text "gidNumber") b u.gid_number end))
  numbers_of u a b (kept _ p) (kept _ q) h = let f : false ≡ true = rw (p, q) at h in cc
  numbers_of u a b (changed n d p) (kept _ q) h =
      rw
        (
          with_number_kept (text "gidNumber") b u.gid_number end q,
          with_number_new (text "uidNumber") (whole n) u.uid_number end p,
        )
        (uid_only n d)
  numbers_of u a b (kept _ p) (changed m d q) h =
      rw
        (
          with_number_new (text "gidNumber") (whole m) u.gid_number end q,
          with_number_kept (text "uidNumber") a u.uid_number
              (field (text "gidNumber") (number (whole m)) end) p,
        )
        (gid_only m d)
  numbers_of u a b (changed n d p) (changed m d' q) h =
      rw
        (
          with_number_new (text "gidNumber") (whole m) u.gid_number end q,
          with_number_new (text "uidNumber") (whole n) u.uid_number
              (field (text "gidNumber") (number (whole m)) end) p,
        )
        (both n m d d')

  -- When the button of the dialog is enabled, no request is on its way, the name of the account has
  -- been typed, and the request has at least one of the two numbers and only natural numbers that the
  -- account does not have already.
  pub posix_body-IsNumbersOf :
      (u : PosixIds) (i : PosixInput)
      → can_change parse u i ≡ true
      → (i.pending ≡ false) × (i.confirm ≡ u.uid) × IsNumbersOf u (posix_body parse u i)
  unfolding can_change posix_body changes_something
  posix_body-IsNumbersOf u i h =
      let uid_good : bad_number parse i.new_uid ≡ false = ground arith in
      let gid_good : bad_number parse i.new_gid ≡ false = ground arith in
      (
        ground arith,
        (===_iff i.confirm u.uid).0 (ground arith),
        numbers_of u (parsed parse i.new_uid) (parsed parse i.new_gid)
            (entry_of u.uid_number i.new_uid uid_good) (entry_of u.gid_number i.new_gid gid_good)
            (ground arith),
      )

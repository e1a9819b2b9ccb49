-- ===== src/UserPage/PosixIds.antt =====
-- Changing the POSIX numbers of an account: web/src/components/posix-ids-change.tsx. `parse` is
-- `Number` of a text.
pub mod Laws
use ldapwarden.Prelude.{
  ◌==◌, if◌then◌else◌, trim, JsString, text, ◌===◌, is_empty, ℕ, Bool, true, false, not, ◌&&◌, ◌||◌,
  Option, none, some,
}
use ldapwarden.Values.{JsNumber, whole, Fields, end, field, number}

-- `Number.isInteger(n) && n >= 0`, denied. Of a number that is no natural one `n < 0` or the test
-- for an integer fails.
unfoldable pub is_bad : Option JsNumber → Bool
is_bad (some (whole n)) = false
is_bad _ = true

-- `value !== undefined && value !== current`: a number that is no natural one is never the current.
unfoldable pub is_new : Option JsNumber → Option ℕ → Bool
is_new none current = false
is_new (some (whole n)) none = true
is_new (some (whole n)) (some m) = not (n == m)
is_new (some _) current = true

-- The numbers that an account has.
pub record PosixIds : Type 0 where
  pub uid : JsString
  pub uid_number : Option ℕ
  pub gid_number : Option ℕ

-- The fields of the dialog.
pub record PosixInput : Type 0 where
  pub new_uid : JsString
  pub new_gid : JsString
  pub confirm : JsString
  pub pending : Bool

module _ (parse : JsString → JsNumber) where
  unfoldable pub parsed : JsString → Option JsNumber
  parsed value = if is_empty (trim value) then none else some (parse value)

  -- `uidBad` and `gidBad`.
  unfoldable pub bad_number : JsString → Bool
  unfolding parsed is_bad
  bad_number value = not (is_empty (trim value)) && is_bad (parsed value)

  unfoldable pub changes_something : PosixIds → PosixInput → Bool
  unfolding parsed is_new
  changes_something u i =
      is_new (parsed i.new_uid) u.uid_number || is_new (parsed i.new_gid) u.gid_number

  -- Whether the button is enabled.
  unfoldable pub can_change : PosixIds → PosixInput → Bool
  unfolding bad_number changes_something
  can_change u i = not (
      bad_number i.new_uid
      || bad_number i.new_gid
      || not (changes_something u i)
      || not (i.confirm === u.uid)
      || i.pending)

  -- `...(value !== undefined && value !== current ? { key: value } : {})`, before the other fields.
  unfoldable pub with_number : JsString → Option JsNumber → Option ℕ → Fields → Fields
  with_number key none current rest = rest
  with_number key (some n) current rest =
      if is_new (some n) current then field key (number n) rest else rest

  -- The body of the request.
  unfoldable pub posix_body : PosixIds → PosixInput → Fields
  unfolding parsed with_number is_new
  posix_body u i =
      with_number (text "uidNumber") (parsed i.new_uid) u.uid_number
        (with_number (text "gidNumber") (parsed i.new_gid) u.gid_number end)

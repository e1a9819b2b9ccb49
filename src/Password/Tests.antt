-- ===== src/Password/Tests.antt =====
-- The theorems on passwords at a short one.
use ldapwarden.Prelude.{ℕ, List, [], ◌∷◌}

-- The bytes 255 and 207 are rejected.
abbrev buffers : List (List ℕ)
buffers = (255 ∷ 0 ∷ []) ∷ (207 ∷ 70 ∷ []) ∷ []

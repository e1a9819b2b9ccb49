-- ===== src/AuditPage/Tests.antt =====
-- Days and summaries as they are.
use ldapwarden.Prelude.{decimal, text, ◌≡◌, refl, true, false, [], ◌∷◌}
use ldapwarden.AuditPage.{iso_day, summarise}

day_tests :
    (iso_day (text "2026-01-31") ≡ true)
    × (iso_day (text "2026-1-31") ≡ false)
    × (iso_day (text "2026-01-31Z") ≡ false)
unfolding iso_day
day_tests = (refl, refl, refl)

three_fields : summarise decimal (text "cn" ∷ text "sn" ∷ text "mail" ∷ []) [] ≡ text "cn, sn, mail"
unfolding summarise
three_fields = refl

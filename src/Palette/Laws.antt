-- ===== src/Palette/Laws.antt =====
-- Lemmas on the highlight of the palette, web/src/components/command-palette.tsx.
use ldapwarden.Prelude.{length, get_elem?, ℕ, zero, suc, ◌<◌, ◌≡◌, refl, some, List, [], ◌∷◌, arith}
use ldapwarden.Palette.{Command, bounded_index, arrow_down, arrow_up, chosen}

elem_at : (xs : List Command) (i : ℕ) → i < length xs → (c : Command) × (get_elem? xs i ≡ some c)
elem_at [] i h = absurd (omega arith)
elem_at (x ∷ xs) zero h = (x, refl)
elem_at (x ∷ xs) (suc i) h = elem_at xs i (omega arith)

bounded_below : (n index : ℕ) → bounded_index (suc n) index < suc n
unfolding bounded_index
bounded_below n index = omega arith

bounded_eq : (n index : ℕ) → index < suc n → bounded_index (suc n) index ≡ index
unfolding bounded_index
bounded_eq n index h = omega arith

arrow_down_below : (n index : ℕ) → arrow_down (suc n) index < suc n
unfolding arrow_down
arrow_down_below n index = grind arith

arrow_up_below : (n index : ℕ) → arrow_up (suc n) index < suc n
unfolding arrow_up
arrow_up_below n index = grind arith

-- While there is a command, Enter runs one of them, wherever the highlight was when the list
-- changed, and after either arrow it runs the one that is highlighted.
pub chosen_always :
    (c : Command) (commands : List Command) (index : ℕ)
    → let all = c ∷ commands in
      let n = length all in
      ((run : Command) × (chosen all index ≡ some run))
      × (bounded_index n (arrow_down n index) ≡ arrow_down n index)
      × (bounded_index n (arrow_up n index) ≡ arrow_up n index)
unfolding chosen
chosen_always c commands index =
    let n = length commands in
    (
      elem_at (c ∷ commands) (bounded_index (suc n) index) (bounded_below n index),
      bounded_eq n (arrow_down (suc n) index) (arrow_down_below n index),
      bounded_eq n (arrow_up (suc n) index) (arrow_up_below n index),
    )

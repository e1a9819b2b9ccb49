-- ===== src/Ui/Paging/Laws.antt =====
-- Lemmas on the pages of a list and the buttons of web/src/components/ui/pagination.tsx.
use native.Mathlib.Nat.{
  le-div_iff_mul-le, lt-div-mul-add, suc-mul, div-mul-le_self, mul-le-mul_right,
}
use native.Mathlib.Decide.{dec_lt}
use ldapwarden.Prelude.{
  ltb, ◌==◌, Bool-cases, or_default, ltb→lt, ℕ, zero, suc, ◌+◌, ◌-◌, ◌*◌, ◌/◌, ◌≤◌, ◌<◌, ◌≡◌, refl,
  ◌↔◌, inl, inr, false, none, some, arith,
}
use ldapwarden.Ui.Paging.{ceil_div, total_pages, start_item, end_item, next_button}

-- A page with an entry on it is one of the pages, and each of these has one.
pub le-ceil_div :
    (p size total : ℕ) → 0 < size → (suc p ≤ ceil_div total size) ↔ (p * size + 1 ≤ total)
unfolding ceil_div
le-ceil_div p size total h =
    let step : (suc p ≤ (total + size - 1) / size) ↔ (suc p * size ≤ total + size - 1) =
      le-div_iff_mul-le h in
    let e : suc p * size ≡ p * size + size = suc-mul p size in
    (λ q. omega (arith, step.0 q, e), λ q. step.1 (omega (arith, e)))

pub le-total_pages :
    (p size total : ℕ)
    → 0 < size
    → 0 < total
    → (suc p ≤ total_pages total size) ↔ (p * size + 1 ≤ total)
unfolding total_pages
le-total_pages p size total h k =
    let (to, from) = le-ceil_div p size total h in
    let (_, one) = le-ceil_div 0 size total h in
    let some_page : 1 ≤ ceil_div total size = one (omega arith) in
    let e : ltb (ceil_div total size) 1 ≡ false = ground arith in rw e (to, from)

start_item_lem : (p size total : ℕ) → 0 < total → start_item (suc p) size total ≡ p * size + 1
unfolding start_item
start_item_lem p size total h =
    let none_false : (total == 0) ≡ false = ground arith in
    let e : suc p - 1 ≡ p = omega arith in rw (none_false, e) refl

end_item_lem :
    (p size total : ℕ)
    → (end_item p size total ≤ total)
      × (end_item p size total ≤ p * size)
      × ((k : ℕ) → k ≤ total → k ≤ p * size → k ≤ end_item p size total)
unfolding end_item
end_item_lem p size total = elim (Bool-cases (ltb total (p * size))) [
  | inl e ↦ rw e (omega arith, omega (arith, ltb→lt _ _ e), λ k a b. a)
  | inr e ↦ rw e (ground arith, omega arith, λ k a b. b)
]

abbrev pub IsOn : ℕ → ℕ → ℕ → ℕ → Type 0
IsOn entry page size total =
    (start_item page size total ≤ entry) × (entry ≤ end_item page size total)

not_before : (entry size p q : ℕ) → p * size ≤ entry → entry < q * size + size → p ≤ q
not_before entry size p q low high = elim (dec_lt q p) [
  | yes h ↦
      let e : suc q * size ≡ q * size + size = suc-mul q size in
      let more : suc q * size ≤ p * size = mul-le-mul_right size h in
      absurd (omega (arith, e, more))
  | no h ↦ omega arith
]

page_unique :
    (entry size total p other : ℕ)
    → 0 < total
    → p * size ≤ entry
    → entry < p * size + size
    → 0 < other
    → IsOn (suc entry) other size total
    → other ≡ suc p
page_unique entry size total p zero t low high o on = absurd (omega arith)
page_unique entry size total p (suc q) t low high o (from, to) =
    let start = start_item_lem q size total t in
    let (_, within, _) = end_item_lem (suc q) size total in
    let e : suc q * size ≡ q * size + size = suc-mul q size in
    let a : p ≤ q = not_before entry size p q low (omega (arith, e, within)) in
    let b : q ≤ p = not_before entry size q p (omega (arith, start)) high in omega arith

-- Each entry of a list, counted from 1, is on exactly one page from 1 to the last.
pub entry_page :
    (entry size total : ℕ)
    → 0 < size
    → entry < total
    → (page : ℕ) × (0 < page)
      × (page ≤ total_pages total size)
      × IsOn (suc entry) page size total
      × ((other : ℕ) → 0 < other → IsOn (suc entry) other size total → other ≡ page)
entry_page entry size total s h =
    let p = entry / size in
    let low : p * size ≤ entry = div-mul-le_self entry size in
    let high : entry < p * size + size = lt-div-mul-add s in
    let e : suc p * size ≡ p * size + size = suc-mul p size in
    let start = start_item_lem p size total (omega arith) in
    let (_, _, above) = end_item_lem (suc p) size total in
    (
      suc p,
      omega arith,
      (le-total_pages p size total s (omega arith)).1 (omega arith),
      (rw start (omega arith), above (suc entry) h (omega (arith, e))),
      λ other o on. page_unique entry size total p other (omega arith) low high o on,
    )

-- `onPageChange` of the next button, as often as it is clicked; a disabled button does nothing.
abbrev pub clicks : ℕ → ℕ → ℕ → ℕ
clicks zero pages page = page
clicks (suc n) pages page = clicks n pages (or_default (next_button page pages) page)

next_button_lem : (page pages : ℕ) → page < pages → next_button page pages ≡ some (page + 1)
unfolding next_button
next_button_lem page pages h = ground arith

-- The next button leads to every page after the current one, in as many clicks as there are pages
-- between the two, and it is disabled on the last page only.
pub next_button_reaches :
    (n page pages : ℕ)
    → page + n ≤ pages
    → (clicks n pages page ≡ page + n)
      × ((next_button (page + n) pages ≡ none) ↔ (page + n ≡ pages))
unfolding next_button
next_button_reaches zero page pages h = (omega arith, (λ e. ground arith, λ e. ground arith))
next_button_reaches (suc n) page pages h =
    let (to, last) = next_button_reaches n (page + 1) pages (omega arith) in
    let e : page + suc n ≡ page + 1 + n = omega arith in
    rw (next_button_lem page pages (omega arith), e) (to, last)

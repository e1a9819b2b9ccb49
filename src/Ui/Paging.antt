-- ===== src/Ui/Paging.antt =====
-- The pages of a list: web/src/components/ui/pagination.tsx, and the request that a list page
-- makes of the number and the size of a page.
pub mod Laws
use ldapwarden.Prelude.{ltb, leb, ◌==◌, if◌then◌else◌, ℕ, ◌+◌, ◌-◌, ◌*◌, ◌/◌, Option, none, some}

-- The entries that are asked for.
pub record Slice : Type 0 where
  pub limit : ℕ
  pub offset : ℕ

-- `limit: pageSize, offset: (currentPage - 1) * pageSize`.
unfoldable pub slice : ℕ → ℕ → Slice
slice page size = record { limit = size; offset = (page - 1) * size }

-- `Math.ceil(total / pageSize)`, at a size that is not 0.
unfoldable pub ceil_div : ℕ → ℕ → ℕ
ceil_div total size = (total + size - 1) / size

-- `Math.max(1, Math.ceil(total / pageSize))`.
unfoldable pub total_pages : ℕ → ℕ → ℕ
unfolding ceil_div
total_pages total size = if ltb (ceil_div total size) 1 then 1 else ceil_div total size

unfoldable pub start_item : ℕ → ℕ → ℕ → ℕ
start_item page size total = if total == 0 then 0 else (page - 1) * size + 1

unfoldable pub end_item : ℕ → ℕ → ℕ → ℕ
end_item page size total = if ltb total (page * size) then total else page * size

-- The buttons: `none` where a button is disabled, and otherwise the page it leads to.
unfoldable pub first_button : ℕ → Option ℕ
first_button page = if page == 1 then none else some 1

unfoldable pub previous_button : ℕ → Option ℕ
previous_button page = if page == 1 then none else some (page - 1)

unfoldable pub next_button : ℕ → ℕ → Option ℕ
next_button page pages = if leb pages page then none else some (page + 1)

unfoldable pub last_button : ℕ → ℕ → Option ℕ
last_button page pages = if leb pages page then none else some pages

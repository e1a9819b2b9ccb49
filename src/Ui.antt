-- ===== src/Ui.antt =====
-- The interface components that compute: web/src/components/ui/tabs.tsx and pagination.tsx,
-- the search of a picker, web/src/lib/use-picker-search.ts, and the search box of a list page,
-- web/src/lib/use-url-search-input.ts.
pub mod Tabs
pub mod Paging
pub mod Picker
pub mod SearchBox
pub mod DetailTabs
mod Tests

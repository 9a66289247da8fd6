-- ===== src/DataTable.antt =====
-- The page numbers of a list: `AdminTablePagination` of
-- web/src/pages/Admin/components/AdminDataTable.tsx.
pub mod Pages
mod Examples
use Prim.Native.Nat.{min, max}
use linkflow_v.Prelude.{
  ℕ, ◌+◌, ◌-◌, ◌/◌, String, Option, none, some, Bool, true, false, leb, ltb, eqb, ◌||◌,
  if◌then◌else◌,
}

-- `Math.max(1, Math.ceil(total / pageSize))`, where a page has at least one row.
unfoldable pub total_pages : ℕ → ℕ → ℕ
total_pages total page_size = max 1 ((total + (page_size - 1)) / page_size)

-- The field for a page number, and the page that the list was asked to show last.
pub record Pagination : Type 0 where
  pub jump_page : String
  pub requested : Option ℕ

abbrev pub go_to : ℕ → Pagination → Pagination
go_to page s = record s { requested = some page }

-- The buttons for the page before and the page after, where they are not disabled.
unfoldable pub previous_page : Bool → ℕ → Pagination → Pagination
previous_page loading page s = if leb page 1 || loading then s else go_to (max 1 (page - 1)) s

module _ (total page_size : ℕ) where
  -- `of_text` is `Number`: the number of a text, where it is an integer from 0.
  unfoldable pub handle_jump_page : (String → Option ℕ) → Pagination → Pagination
  handle_jump_page of_text s = elim (of_text s.jump_page) [
    | none ↦ s
    | some next_page ↦ if ltb next_page 1 then s else record {
      jump_page = "";
      requested = some (min next_page (total_pages total page_size));
    }
  ]

  unfoldable pub next_page : Bool → ℕ → Pagination → Pagination
  next_page loading page s =
      if leb (total_pages total page_size) page || loading
      then s
      else go_to (min (total_pages total page_size) (page + 1)) s

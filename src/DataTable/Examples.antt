-- ===== src/DataTable/Examples.antt =====
-- Runs of the page controls of web/src/pages/Admin/components/AdminDataTable.tsx.
use linkflow_v.Prelude.{
  ℕ, ◌⊎◌, ◌<◌, ◌-◌, ◌*◌, ◌≤◌, ◌≡◌, refl, String, Option, none, some, false, ◌==◌, arith,
  if◌then◌else◌,
}
use linkflow_v.DataTable.{Pagination, total_pages, handle_jump_page}
use linkflow_v.DataTable.Pages.{IsPage, jump, press, total_pages-bounds, press-IsPage}

abbrev of_text : String → Option ℕ
of_text s = if s == "7" then some 7 else none

abbrev typed : Pagination
typed = record { jump_page = "7"; requested = none }

jumps : (press 21 10 of_text false 1 jump typed).requested ≡ some 3
unfolding handle_jump_page total_pages
jumps = refl

total_pages-bounds_example :
    (1 ≤ total_pages 21 10)
    × (21 ≤ total_pages 21 10 * 10)
    × ((◌≡◌ {A = ℕ} 21 0) × (total_pages 21 10 ≡ 1) ⊎ ((total_pages 21 10 - 1) * 10 < 21))
total_pages-bounds_example = total_pages-bounds 21 10 (omega arith)

press-IsPage_example : IsPage 21 10 (press 21 10 of_text false 1 jump typed).requested
unfolding total_pages
press-IsPage_example = press-IsPage 21 10 of_text false 1 jump typed (omega arith, omega arith) tt

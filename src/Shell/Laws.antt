-- ===== src/Shell/Laws.antt =====
-- Closing tabs and moving between sections in web/src/pages/Admin/index.tsx.
use linkflow_v.Prelude.{◌≡◌, refl, true, List, [], ◌∷◌, arith, last, inl, inr, Bool-cases}
use linkflow_v.Stores.AdminUi.{
  AdminSectionId, overview, same_section, includes, without, or_overview, add_visited_tab,
  remove_visited_tab,
}
use linkflow_v.Stores.AdminUi.Sections.{same_section_self, same_section_sym}
use linkflow_v.Stores.AdminUi.Tabs.{includes-without}
use linkflow_v.Shell.{
  get_active_section_id, get_nav_item_by_id, get_or, AdminPage, visit, handle_close_tab,
}

-- The path of each section's navigation item leads to that section.
pub get_active_section_id-get_nav_item_by_id :
    (id : AdminSectionId) → get_active_section_id (get_nav_item_by_id id).path ≡ id
unfolding get_active_section_id get_nav_item_by_id
get_active_section_id-get_nav_item_by_id overview = refl
get_active_section_id-get_nav_item_by_id _ = refl

-- The active section has a tab.
abbrev pub IsVisited : AdminPage → Type 0
IsVisited page = includes (get_active_section_id page.pathname) page.ui.visited_tabs ≡ true

includes-last :
    (tabs : List AdminSectionId) → includes (get_or (last tabs) overview) (or_overview tabs) ≡ true
unfolding includes
includes-last [] = rw (same_section_self overview) refl
includes-last (tab ∷ []) = rw (same_section_self tab) refl
includes-last (tab ∷ next ∷ tabs) = ground (arith, includes-last (next ∷ tabs))

includes-or_overview :
    (id : AdminSectionId) (tabs : List AdminSectionId)
    → includes id tabs ≡ true
    → includes id (or_overview tabs) ≡ true
unfolding includes
includes-or_overview id [] h = cc
includes-or_overview id (tab ∷ tabs) h = h

-- Closing a tab leads to a section that has a tab, if the active section had one.
pub handle_close_tab-IsVisited :
    (tab_id : AdminSectionId) (page : AdminPage)
    → IsVisited page
    → IsVisited (handle_close_tab tab_id page)
unfolding handle_close_tab remove_visited_tab
handle_close_tab-IsVisited tab_id page h =
    let active = get_active_section_id page.pathname in
    let next_tabs = without tab_id page.ui.visited_tabs in
    elim (Bool-cases (same_section tab_id active)) [
      | inl closed ↦ rw closed (
          rw (get_active_section_id-get_nav_item_by_id (get_or (last next_tabs) overview))
            (includes-last next_tabs))
      | inr other ↦ rw other (
          includes-or_overview active next_tabs (
            rw (includes-without tab_id active page.ui.visited_tabs, h)
              (rw (same_section_sym active tab_id, other) refl)))
    ]

visit-IsVisited_same : (page : AdminPage) → IsVisited page → visit page ≡ page
unfolding visit add_visited_tab
visit-IsVisited_same page h = rw h refl

-- If the active section has a tab when a tab is closed, the section that is active afterwards has
-- its tab too: the effect that runs on arrival changes nothing, so a closed tab does not come back.
pub visit-handle_close_tab :
    (tab_id : AdminSectionId) (page : AdminPage)
    → IsVisited page
    → visit (handle_close_tab tab_id page) ≡ handle_close_tab tab_id page
visit-handle_close_tab tab_id page h =
    visit-IsVisited_same (handle_close_tab tab_id page) (handle_close_tab-IsVisited tab_id page h)

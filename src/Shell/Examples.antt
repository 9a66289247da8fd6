-- ===== src/Shell/Examples.antt =====
-- Runs of the frame of web/src/pages/Admin/index.tsx.
use linkflow_v.Prelude.{◌≡◌, refl, false, [], ◌∷◌}
use linkflow_v.Stores.AdminUi.{
  overview, devices, products, zh_cn, includes, same_section, remove_visited_tab,
}
use linkflow_v.Shell.{AdminPage, get_active_section_id, get_nav_item_by_id, visit, handle_close_tab}
use linkflow_v.Shell.Laws.{get_active_section_id-get_nav_item_by_id, visit-handle_close_tab}

abbrev page : AdminPage
page = record {
  pathname = "/admin/tenants/devices/d-1";
  ui = record {
    dark_mode = false;
    locale = zh_cn;
    sidebar_expanded = false;
    visited_tabs = overview ∷ products ∷ devices ∷ [];
  };
}

closing_leads_to_products : (handle_close_tab devices page).pathname ≡ "/admin/tenants/products"
unfolding handle_close_tab get_active_section_id get_nav_item_by_id same_section remove_visited_tab
closing_leads_to_products = refl

visit-handle_close_tab_example :
    visit (handle_close_tab devices page) ≡ handle_close_tab devices page
unfolding get_active_section_id includes same_section
visit-handle_close_tab_example = visit-handle_close_tab devices page refl

get_active_section_id-get_nav_item_by_id_example :
    get_active_section_id (get_nav_item_by_id devices).path ≡ devices
get_active_section_id-get_nav_item_by_id_example = get_active_section_id-get_nav_item_by_id devices

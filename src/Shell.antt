-- ===== src/Shell.antt =====
-- The frame of the console: web/src/pages/Admin/index.tsx. The page's location and the store of
-- preferences are one state; `history.push` changes the location.
pub mod Laws
mod Examples
use text.Mathlib.Text.{starts_with}
use linkflow_v.Prelude.{
  String, Bool, true, false, Option, none, some, List, [], ◌∷◌, find, last, if◌then◌else◌,
}
use linkflow_v.Stores.AdminUi.{
  AdminSectionId, overview, tenants, products, things_models, devices, device_properties,
  audit_logs, settings, same_section, includes, without, AdminUiState, add_visited_tab,
  remove_visited_tab,
}

-- The parts of a navigation item that the code reads; its icon and label are for show.
pub record NavItem : Type 0 where
  pub id : AdminSectionId
  pub label_key : String
  pub path : String

abbrev pub overview_item : NavItem
overview_item = record { id = overview; label_key = "adminOverviewNav"; path = "/admin" }

abbrev pub nav_items : List NavItem
nav_items =
    overview_item
    ∷ record { id = tenants; label_key = "adminTenantsNav"; path = "/admin/tenants" }
    ∷ record { id = products; label_key = "adminProductsNav"; path = "/admin/tenants/products" }
    ∷ record {
      id = things_models;
      label_key = "adminThingsModelsNav";
      path = "/admin/tenants/thingsmodels";
    }
    ∷ record { id = devices; label_key = "adminDevicesNav"; path = "/admin/tenants/devices" }
    ∷ record {
      id = device_properties;
      label_key = "adminDevicePropertiesNav";
      path = "/admin/tenants/device-properties";
    }
    ∷ record { id = audit_logs; label_key = "adminAuditLogsNav"; path = "/admin/audit-logs" }
    ∷ record { id = settings; label_key = "adminSettingsNav"; path = "/admin/settings" }
    ∷ []

unfoldable pub get_active_section_id : String → AdminSectionId
get_active_section_id pathname =
    if starts_with pathname "/admin/tenants"
    then (if starts_with pathname "/admin/tenants/products"
        then products
        else if starts_with pathname "/admin/tenants/thingsmodels"
        then things_models
        else if starts_with pathname "/admin/tenants/devices"
        then devices
        else if starts_with pathname "/admin/tenants/device-properties"
        then device_properties
        else tenants)
    else if starts_with pathname "/admin/audit-logs"
    then audit_logs
    else if starts_with pathname "/admin/device-management"
    then devices
    else if starts_with pathname "/admin/settings"
    then settings
    else overview

abbrev pub get_or {ℓ} : {A : Type ℓ} → Option A → A → A
get_or none d = d
get_or (some a) d = a

-- `navItems[0]`, where nothing is found, is the overview.
unfoldable pub get_nav_item_by_id : AdminSectionId → NavItem
unfolding same_section
get_nav_item_by_id id = get_or (find (λ item. same_section item.id id) nav_items) overview_item

pub record AdminPage : Type 0 where
  pub pathname : String
  pub ui : AdminUiState

-- The effect of the page at each change of the active section.
unfoldable pub visit : AdminPage → AdminPage
visit page = record page { ui = add_visited_tab (get_active_section_id page.pathname) page.ui }

unfoldable pub handle_close_tab : AdminSectionId → AdminPage → AdminPage
handle_close_tab tab_id page =
    let next_tabs = without tab_id page.ui.visited_tabs in
    let fallback_tab = get_nav_item_by_id (get_or (last next_tabs) overview) in
    let ui = remove_visited_tab tab_id page.ui in
    if same_section tab_id (get_active_section_id page.pathname)
    then record { pathname = fallback_tab.path; ui = ui }
    else record page { ui = ui }

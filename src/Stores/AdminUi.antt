-- ===== src/Stores/AdminUi.antt =====
-- The interface preferences: web/src/stores/adminUiStore.ts. A `set` call is a function from the
-- state to the next state.
pub mod Sections
pub mod Tabs
pub mod Persisted
mod Examples
use linkflow_v.Prelude.{
  String, Bool, true, false, not, Option, none, some, List, [], ◌∷◌, ◌++◌, ◌==◌, any, keep, find,
  if◌then◌else◌,
}
use linkflow_v.Js.Json.{Json, null, bool, num, str, arr, obj, Items, nil, cons, Fields, end}
use linkflow_v.Js.Object.{get}

pub data AdminSectionId : Type 0 where
  overview tenants products things_models devices device_properties audit_logs settings :
      AdminSectionId

pub data AppLocale : Type 0 where
  zh_cn en_us : AppLocale

-- The text that a section is in the source.
abbrev pub section_text : AdminSectionId → String
section_text overview = "overview"
section_text tenants = "tenants"
section_text products = "products"
section_text things_models = "thingsModels"
section_text devices = "devices"
section_text device_properties = "deviceProperties"
section_text audit_logs = "auditLogs"
section_text settings = "settings"

abbrev pub valid_section_ids : List AdminSectionId
valid_section_ids =
    overview ∷ tenants ∷ products ∷ things_models ∷ devices ∷ device_properties ∷ audit_logs
    ∷ settings ∷ []

-- `===` and `includes` compare the texts.
unfoldable pub same_section : AdminSectionId → AdminSectionId → Bool
same_section a b = section_text a == section_text b

unfoldable pub includes : AdminSectionId → List AdminSectionId → Bool
includes id tabs = any (λ tab. same_section tab id) tabs

pub record AdminUiState : Type 0 where
  pub dark_mode : Bool
  pub locale : AppLocale
  pub sidebar_expanded : Bool
  pub visited_tabs : List AdminSectionId

-- The argument of a setter: a value, or a function of the current one.
pub data Change (A : Type 0) : Type 0 where
  to : A → Change A
  by : (A → A) → Change A

unfoldable pub resolve_value : {A : Type 0} → Change A → A → A
resolve_value (to value) current = value
resolve_value (by f) current = f current

unfoldable pub initial : AdminUiState
initial = record {
  dark_mode = false;
  locale = zh_cn;
  sidebar_expanded = false;
  visited_tabs = overview ∷ [];
}

unfoldable pub add_visited_tab : AdminSectionId → AdminUiState → AdminUiState
add_visited_tab id state =
    if includes id state.visited_tabs
    then state
    else record state { visited_tabs = state.visited_tabs ++ id ∷ [] }

-- `tabs.length > 0 ? tabs : ['overview']`.
abbrev pub or_overview : List AdminSectionId → List AdminSectionId
or_overview [] = overview ∷ []
or_overview (tab ∷ tabs) = tab ∷ tabs

-- `tabs.filter((tabId) => tabId !== id)`.
abbrev pub without : AdminSectionId → List AdminSectionId → List AdminSectionId
without id tabs = keep (λ tab. not (same_section tab id)) tabs

unfoldable pub remove_visited_tab : AdminSectionId → AdminUiState → AdminUiState
remove_visited_tab id state = record state {
  visited_tabs = or_overview (without id state.visited_tabs);
}

unfoldable pub set_dark_mode : Change Bool → AdminUiState → AdminUiState
unfolding resolve_value
set_dark_mode value state = record state { dark_mode = resolve_value value state.dark_mode }

unfoldable pub set_locale : Change AppLocale → AdminUiState → AdminUiState
unfolding resolve_value
set_locale value state = record state { locale = resolve_value value state.locale }

unfoldable pub set_sidebar_expanded : Change Bool → AdminUiState → AdminUiState
unfolding resolve_value
set_sidebar_expanded value state = record state {
  sidebar_expanded = resolve_value value state.sidebar_expanded;
}

unfoldable pub toggle_dark_mode : AdminUiState → AdminUiState
toggle_dark_mode state = record state { dark_mode = not state.dark_mode }

-- A state read from the browser's storage: the stored fields replace the current ones unread, so
-- they may be any JSON value; the tabs are checked.
pub record MergedState (N : Type 0) : Type 0 where
  pub dark_mode : Json N
  pub locale : Json N
  pub sidebar_expanded : Json N
  pub visited_tabs : List AdminSectionId

abbrev pub cons_some : Option AdminSectionId → List AdminSectionId → List AdminSectionId
cons_some none tabs = tabs
cons_some (some id) tabs = id ∷ tabs

module _ {N : Type 0} where
  -- The section that a value is, where `isAdminSectionId` holds of it.
  unfoldable pub admin_section_id : Json N → Option AdminSectionId
  admin_section_id (str s) = find (λ id. section_text id == s) valid_section_ids
  admin_section_id value = none

  -- `value.filter(isAdminSectionId)`.
  pub valid_tabs : Items N → List AdminSectionId
  unfolding admin_section_id
  valid_tabs nil = []
  valid_tabs (cons v vs) = cons_some (admin_section_id v) (valid_tabs vs)

  unfoldable pub normalize_visited_tabs : Option (Json N) → List AdminSectionId
  unfolding valid_tabs
  normalize_visited_tabs (some (arr items)) = or_overview (valid_tabs items)
  normalize_visited_tabs value = overview ∷ []

  abbrev pub locale_json : AppLocale → Json N
  locale_json zh_cn = str "zh-CN"
  locale_json en_us = str "en-US"

  -- The current state as a merged one.
  abbrev pub as_merged : AdminUiState → MergedState N
  as_merged s = record {
    dark_mode = bool s.dark_mode;
    locale = locale_json s.locale;
    sidebar_expanded = bool s.sidebar_expanded;
    visited_tabs = s.visited_tabs;
  }

  abbrev pub or_current : Option (Json N) → Json N → Json N
  or_current none current = current
  or_current (some v) current = v

  -- `{ ...currentState, ...state, visitedTabs: … }` for the own properties of the stored object.
  abbrev pub merge_fields : Fields N → AdminUiState → MergedState N
  merge_fields state current = record {
    dark_mode = or_current (get "darkMode" state) (bool current.dark_mode);
    locale = or_current (get "locale" state) (locale_json current.locale);
    sidebar_expanded = or_current (get "sidebarExpanded" state) (bool current.sidebar_expanded);
    visited_tabs = normalize_visited_tabs (get "visitedTabs" state);
  }

  -- `none` is `undefined`. An array is an object with none of the four properties.
  unfoldable pub merge : Option (Json N) → AdminUiState → MergedState N
  unfolding normalize_visited_tabs
  merge (some (obj state)) current = merge_fields state current
  merge (some (arr items)) current = merge_fields end current
  merge persisted current = as_merged current

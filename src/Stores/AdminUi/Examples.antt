-- ===== src/Stores/AdminUi/Examples.antt =====
-- Runs of the preferences of web/src/stores/adminUiStore.ts.
use linkflow_v.Prelude.{ℕ, ◌≡◌, ◌≢◌, refl, true, false, some, List, [], ◌∷◌}
use linkflow_v.Js.Json.{bool, str, arr, obj, nil, cons, Fields, end, field}
use linkflow_v.Js.Object.{get}
use linkflow_v.Stores.AdminUi.{
  overview, tenants, products, devices, AdminUiState, en_us, initial, toggle_dark_mode,
  same_section, includes, add_visited_tab, remove_visited_tab, as_merged, merge,
}
use linkflow_v.Stores.AdminUi.Tabs.{
  Op, add, remove, toggle, run_ops, apply, IsValid, run_ops-IsValid,
}
use linkflow_v.Stores.AdminUi.Persisted.{IsSaved, merge-IsSaved, merge-visited_tabs-ne-nil}

abbrev session : List Op
session = add devices ∷ add products ∷ toggle ∷ add devices ∷ remove overview ∷ []

session_tabs : (run_ops session initial).visited_tabs ≡ devices ∷ products ∷ []
unfolding run_ops apply initial add_visited_tab remove_visited_tab includes same_section
    toggle_dark_mode
session_tabs = refl

run_ops-IsValid_example : IsValid (run_ops session initial)
run_ops-IsValid_example = run_ops-IsValid session

abbrev two_tabs : AdminUiState
two_tabs = record {
  dark_mode = true;
  locale = en_us;
  sidebar_expanded = false;
  visited_tabs = tenants ∷ devices ∷ [];
}

abbrev stored : Fields ℕ
stored = field "darkMode" (bool true) (
    field "locale" (str "en-US") (
      field "sidebarExpanded" (bool false)
        (field "visitedTabs" (arr (cons (str "tenants") (cons (str "devices") nil))) end)))

stored-IsSaved : IsSaved two_tabs stored
unfolding get
stored-IsSaved = record {
  dark_mode = refl;
  locale = refl;
  sidebar_expanded = refl;
  visited_tabs = refl;
}

merge-IsSaved_example : merge (some (obj stored)) initial ≡ as_merged two_tabs
merge-IsSaved_example = merge-IsSaved two_tabs initial stored stored-IsSaved (λ e. cc)

abbrev no_tabs : Fields ℕ
no_tabs = field "visitedTabs" (arr nil) end

merge-visited_tabs-ne-nil_example : (merge (some (obj no_tabs)) two_tabs).visited_tabs ≢ []
merge-visited_tabs-ne-nil_example =
    merge-visited_tabs-ne-nil (some (obj no_tabs)) two_tabs (λ e. cc)

-- ===== src/Stores/AdminUi/Persisted.antt =====
-- The `merge` option of web/src/stores/adminUiStore.ts: the state that the browser's storage gives
-- back.
use linkflow_v.Prelude.{◌≡◌, refl, ◌≢◌, Option, none, some, List, [], ◌∷◌}
use linkflow_v.Js.Json.{Json, bool, str, arr, obj, Items, nil, cons, Fields, end}
use linkflow_v.Js.Object.{get}
use linkflow_v.Stores.AdminUi.{
  AdminSectionId, section_text, AdminUiState, valid_tabs, normalize_visited_tabs, locale_json,
  as_merged, merge, or_overview,
}
use linkflow_v.Stores.AdminUi.Sections.{section_of_lem}

-- The tabs as the array of texts that the store holds.
abbrev pub tabs_json : {N : Type 0} → List AdminSectionId → Items N
tabs_json [] = nil
tabs_json (tab ∷ tabs) = cons (str (section_text tab)) (tabs_json tabs)

valid_tabs-tabs_json :
    (N : Type 0) (tabs : List AdminSectionId) → valid_tabs {N = N} (tabs_json tabs) ≡ tabs
unfolding valid_tabs
valid_tabs-tabs_json N [] = refl
valid_tabs-tabs_json N (tab ∷ tabs) = rw (section_of_lem tab, valid_tabs-tabs_json N tabs) refl

or_overview_self : (tabs : List AdminSectionId) → tabs ≢ [] → or_overview tabs ≡ tabs
or_overview_self [] h = absurd (h refl)
or_overview_self (tab ∷ tabs) h = refl

or_overview-ne-nil : (tabs : List AdminSectionId) → or_overview tabs ≢ []
or_overview-ne-nil [] e = cc
or_overview-ne-nil (tab ∷ tabs) e = cc

module _ {N : Type 0} where
  -- What the storage keeps of a state: its data properties, each as JSON.
  pub record IsSaved (s : AdminUiState) (o : Fields N) : Type 0 where
    pub dark_mode : get "darkMode" o ≡ some (bool s.dark_mode)
    pub locale : get "locale" o ≡ some (locale_json s.locale)
    pub sidebar_expanded : get "sidebarExpanded" o ≡ some (bool s.sidebar_expanded)
    pub visited_tabs : get "visitedTabs" o ≡ some (arr (tabs_json s.visited_tabs))

  -- A saved state with a visited tab comes back as it was, whatever the state at start-up is.
  pub merge-IsSaved :
      (s current : AdminUiState) (o : Fields N)
      → IsSaved s o
      → s.visited_tabs ≢ []
      → merge (some (obj o)) current ≡ as_merged s
  unfolding merge
  merge-IsSaved s current o saved h =
      rw (saved.dark_mode, saved.locale, saved.sidebar_expanded, saved.visited_tabs)
        (rw (valid_tabs-tabs_json N s.visited_tabs, or_overview_self s.visited_tabs h) refl)

  normalize_visited_tabs-ne-nil : (value : Option (Json N)) → normalize_visited_tabs value ≢ []
  unfolding normalize_visited_tabs
  normalize_visited_tabs-ne-nil none e = cc
  normalize_visited_tabs-ne-nil (some (arr items)) e = or_overview-ne-nil (valid_tabs items) e
  normalize_visited_tabs-ne-nil (some _) e = cc

  -- Whatever value the storage gives back, there is a visited tab if there was one at start-up.
  pub merge-visited_tabs-ne-nil :
      (persisted : Option (Json N)) (current : AdminUiState)
      → current.visited_tabs ≢ []
      → (merge persisted current).visited_tabs ≢ []
  unfolding merge
  merge-visited_tabs-ne-nil none current h = h
  merge-visited_tabs-ne-nil (some (obj o)) current h =
      normalize_visited_tabs-ne-nil (get "visitedTabs" o)
  merge-visited_tabs-ne-nil (some (arr items)) current h =
      normalize_visited_tabs-ne-nil (get "visitedTabs" end)
  merge-visited_tabs-ne-nil (some _) current h = h

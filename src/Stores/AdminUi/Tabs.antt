-- ===== src/Stores/AdminUi/Tabs.antt =====
-- The visited tabs of web/src/stores/adminUiStore.ts under every operation of the store.
use linkflow_v.Prelude.{
  ◌≡◌, refl, ◌≢◌, Bool, true, false, List, [], ◌∷◌, ◌++◌, arith, not, inl, inr, Bool-cases, sym,
  ◌&&◌, ◌||◌,
}
use linkflow_v.Stores.AdminUi.{
  AdminSectionId, overview, AppLocale, AdminUiState, Change, same_section, includes, initial,
  add_visited_tab, or_overview, without, remove_visited_tab, set_dark_mode, set_locale,
  set_sidebar_expanded, toggle_dark_mode,
}
use linkflow_v.Stores.AdminUi.Sections.{
  same_section_iff, same_section_self, same_section_sym, same_section_same,
}

pub data Op : Type 0 where
  add remove : AdminSectionId → Op
  dark : Change Bool → Op
  language : Change AppLocale → Op
  sidebar : Change Bool → Op
  toggle : Op

unfoldable pub apply : Op → AdminUiState → AdminUiState
apply (add id) s = add_visited_tab id s
apply (remove id) s = remove_visited_tab id s
apply (dark v) s = set_dark_mode v s
apply (language v) s = set_locale v s
apply (sidebar v) s = set_sidebar_expanded v s
apply toggle s = toggle_dark_mode s

unfoldable pub run_ops : List Op → AdminUiState → AdminUiState
run_ops [] s = s
run_ops (op ∷ ops) s = run_ops ops (apply op s)

-- No tab is listed twice.
abbrev pub IsDistinct : List AdminSectionId → Type 0
IsDistinct [] = Unit
IsDistinct (tab ∷ tabs) = (includes tab tabs ≡ false) × IsDistinct tabs

pub record IsValid (s : AdminUiState) : Type 0 where
  pub some_tab : s.visited_tabs ≢ []
  pub distinct : IsDistinct s.visited_tabs

pub includes-append :
    (id : AdminSectionId) (xs ys : List AdminSectionId)
    → includes id (xs ++ ys) ≡ (includes id xs || includes id ys)
unfolding includes
includes-append id [] ys = refl
includes-append id (x ∷ xs) ys = ground (arith, includes-append id xs ys)

pub includes-without :
    (id j : AdminSectionId) (tabs : List AdminSectionId)
    → includes j (without id tabs) ≡ (includes j tabs && not (same_section j id))
unfolding includes
includes-without id j [] = refl
includes-without id j (tab ∷ tabs) = ground (
  arith,
  includes-without id j tabs,
  same_section_same tab id j,
  same_section_same tab j id,
  same_section_sym id j,
  same_section_sym tab id,
)

pub append-IsDistinct :
    (id : AdminSectionId) (tabs : List AdminSectionId)
    → IsDistinct tabs
    → includes id tabs ≡ false
    → IsDistinct (tabs ++ id ∷ [])
unfolding includes
append-IsDistinct id [] d h = (refl, tt)
append-IsDistinct id (tab ∷ tabs) (fresh, d) h = ground (
  arith,
  includes-append tab tabs (id ∷ []),
  same_section_sym tab id,
  append-IsDistinct id tabs d,
)

without-IsDistinct :
    (id : AdminSectionId) (tabs : List AdminSectionId)
    → IsDistinct tabs
    → IsDistinct (without id tabs)
without-IsDistinct id [] d = tt
without-IsDistinct id (tab ∷ tabs) (fresh, d) =
    ground (arith, without-IsDistinct id tabs d, includes-without id tab tabs)

or_overview-IsDistinct :
    (tabs : List AdminSectionId) → IsDistinct tabs → IsDistinct (or_overview tabs)
unfolding includes
or_overview-IsDistinct [] d = (refl, tt)
or_overview-IsDistinct (tab ∷ tabs) d = d

or_overview-ne-nil : (tabs : List AdminSectionId) → or_overview tabs ≢ []
or_overview-ne-nil [] e = cc
or_overview-ne-nil (tab ∷ tabs) e = cc

append-ne-nil : (tabs : List AdminSectionId) (id : AdminSectionId) → tabs ++ id ∷ [] ≢ []
append-ne-nil [] id e = cc
append-ne-nil (tab ∷ tabs) id e = cc

initial-IsValid : IsValid initial
unfolding initial includes
initial-IsValid = record { some_tab = λ e. cc; distinct = (refl, tt) }

apply-IsValid : (op : Op) (s : AdminUiState) → IsValid s → IsValid (apply op s)
unfolding apply add_visited_tab remove_visited_tab set_dark_mode set_locale set_sidebar_expanded
    toggle_dark_mode
apply-IsValid (add id) s v = elim (Bool-cases (includes id s.visited_tabs)) [
  | inl old ↦ rw old v
  | inr new ↦ rw new record {
    some_tab = append-ne-nil s.visited_tabs id;
    distinct = append-IsDistinct id s.visited_tabs v.distinct new;
  }
]
apply-IsValid (remove id) s v = record {
  some_tab = or_overview-ne-nil (without id s.visited_tabs);
  distinct = or_overview-IsDistinct _ (without-IsDistinct id s.visited_tabs v.distinct);
}
apply-IsValid (dark c) s v = record { some_tab = v.some_tab; distinct = v.distinct }
apply-IsValid (language c) s v = record { some_tab = v.some_tab; distinct = v.distinct }
apply-IsValid (sidebar c) s v = record { some_tab = v.some_tab; distinct = v.distinct }
apply-IsValid toggle s v = record { some_tab = v.some_tab; distinct = v.distinct }

run_ops_keeps_IsValid : (ops : List Op) (s : AdminUiState) → IsValid s → IsValid (run_ops ops s)
unfolding run_ops
run_ops_keeps_IsValid [] s v = v
run_ops_keeps_IsValid (op ∷ ops) s v = run_ops_keeps_IsValid ops (apply op s) (apply-IsValid op s v)

-- Whatever operations are called from the start, there is a visited tab and none is listed twice.
pub run_ops-IsValid : (ops : List Op) → IsValid (run_ops ops initial)
run_ops-IsValid ops = run_ops_keeps_IsValid ops initial initial-IsValid

includes_singleton : (id j : AdminSectionId) → includes j (id ∷ []) ≡ same_section id j
unfolding includes
includes_singleton id j = ground arith

includes-same :
    (id j : AdminSectionId) (tabs : List AdminSectionId)
    → same_section id j ≡ true
    → includes id tabs ≡ includes j tabs
includes-same id j tabs h = rw ((same_section_iff id j).0 h) refl

-- After a tab is added, it is listed, and so is exactly what was listed before.
pub includes-add_visited_tab :
    (id j : AdminSectionId) (s : AdminUiState)
    → includes j (add_visited_tab id s).visited_tabs
      ≡ (includes j s.visited_tabs || same_section id j)
unfolding add_visited_tab
includes-add_visited_tab id j s = elim (Bool-cases (includes id s.visited_tabs)) [
  | inl old ↦ rw old (ground (arith, includes-same id j s.visited_tabs))
  | inr new ↦
      rw (new, includes-append j s.visited_tabs (id ∷ [])) (rw (includes_singleton id j) refl)
]

includes-or_overview :
    (j : AdminSectionId) (tabs : List AdminSectionId)
    → includes j tabs ≡ true
    → includes j (or_overview tabs) ≡ true
unfolding includes
includes-or_overview j [] h = cc
includes-or_overview j (tab ∷ tabs) h = h

includes-or_overview-false :
    (j : AdminSectionId) (tabs : List AdminSectionId)
    → includes j tabs ≡ false
    → same_section overview j ≡ false
    → includes j (or_overview tabs) ≡ false
unfolding includes
includes-or_overview-false j [] h n = rw n refl
includes-or_overview-false j (tab ∷ tabs) h n = h

-- After a tab other than the overview is removed, it is not listed, and every other tab `j` that was
-- listed still is.
pub includes-remove_visited_tab :
    (id j : AdminSectionId) (s : AdminUiState)
    → id ≢ overview
    → includes j s.visited_tabs ≡ true
    → j ≢ id
    → (includes id (remove_visited_tab id s).visited_tabs ≡ false)
      × (includes j (remove_visited_tab id s).visited_tabs ≡ true)
unfolding remove_visited_tab
includes-remove_visited_tab id j s other listed ne = (
  includes-or_overview-false id (without id s.visited_tabs)
      (rw (includes-without id id s.visited_tabs, same_section_self id) (ground arith))
      (elim (Bool-cases (same_section overview id)) [
        | inl p ↦ absurd (other (sym ((same_section_iff overview id).0 p)))
        | inr p ↦ p
      ]),
  includes-or_overview j (without id s.visited_tabs) (
      rw (includes-without id j s.visited_tabs, listed)
        (elim (Bool-cases (same_section j id)) [
          | inl p ↦ absurd (ne ((same_section_iff j id).0 p))
          | inr p ↦ rw p refl
        ])),
)

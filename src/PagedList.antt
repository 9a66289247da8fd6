-- ===== src/PagedList.antt =====
-- The list of a page that is read page by page: the effect of web/src/pages/Admin/AuditLogManagement.tsx,
-- TenantManagement.tsx and ProductManagement.tsx that reads it again when the page, its size or the
-- tenant changes, and `loadTenants` and `loadProducts` of the last two. Each event is one turn of the
-- browser: the changes of the state are rendered together, and then the effect runs if one of its
-- dependencies has changed. Requests stay pending, and their answers arrive in any order.
pub mod Fresh
pub mod Shows
pub mod Settles
mod Examples
use linkflow_v.Prelude.{
  ℕ, zero, suc, String, Bool, true, false, not, ◌&&◌, ◌||◌, Option, none, some, List, [], ◌∷◌, ◌==◌,
  eqb, if◌then◌else◌,
}
use linkflow_v.Answers.{Answer, answered, failed}
use linkflow_v.Services.Call.{PageResult}

-- What is asked of the service; the scope is the tenant, if the list has one.
pub record Query : Type 0 where
  pub scope : String
  pub page : ℕ
  pub page_size : ℕ

abbrev pub same_query : Query → Query → Bool
same_query a c = (a.scope == c.scope && eqb a.page c.page) && eqb a.page_size c.page_size

pub record Listing (A : Type 0) : Type 0 where
  pub rows : List A
  pub total : ℕ
  pub query : Query
  pub loading : Bool
  -- The request of the last run of the effect, those of runs that were cancelled, and those of
  -- the function that handlers call.
  pub live : Option Query
  pub cancelled : List Query
  pub by_hand : List Query

pub data Event (A : Type 0) : Type 0 where
  -- A control or a handler sets the query.
  ask : Query → Event A
  -- The language changes, on which the effect depends too.
  translate : Event A
  -- A handler reads the list, with the query that it closed over.
  load : Query → Event A
  -- The answer for the last run of the effect, for the n-th cancelled run, and for the n-th
  -- reading of a handler.
  answer : Answer (PageResult A) → Event A
  late late_by_hand : ℕ → Answer (PageResult A) → Event A

abbrev pub item_at : ℕ → List Query → Option Query
item_at n [] = none
item_at zero (q ∷ qs) = some q
item_at (suc n) (q ∷ qs) = item_at n qs

abbrev pub without_item : ℕ → List Query → List Query
without_item n [] = []
without_item zero (q ∷ qs) = qs
without_item (suc n) (q ∷ qs) = q ∷ without_item n qs

abbrev pub retire : Option Query → List Query → List Query
retire none queries = queries
retire (some q) queries = q ∷ queries

-- `setItems`, `setTotal`, `setPage` and `setPageSize` with an answer.
abbrev pub show : {A : Type 0} → PageResult A → Listing A → Listing A
show r s = record s {
  rows = r.items;
  total = r.total;
  query = record (s.query) { page = r.page; page_size = r.page_size };
}

-- The list is empty where the scope is one that the page skips.
module _ (skip : String → Bool) where
  -- The clean-up of the last run of the effect, and the next run up to its `await`.
  abbrev pub run_effect : {A : Type 0} → Listing A → Listing A
  run_effect s =
      let past = retire s.live s.cancelled in
      if skip s.query.scope
      then record s { rows = []; total = 0; live = none; cancelled = past }
      else record s { loading = true; live = some s.query; cancelled = past }

  -- The render after a turn: the effect runs if its dependencies differ.
  abbrev pub commit : {A : Type 0} → Query → Listing A → Listing A
  commit before s = if same_query before s.query then s else run_effect s

  unfoldable pub ask_for : {A : Type 0} → Query → Listing A → Listing A
  ask_for q s = commit s.query (record s { query = q })

  -- `loadTenants` and `loadProducts` up to their `await`.
  unfoldable pub load_by_hand : {A : Type 0} → Query → Listing A → Listing A
  load_by_hand q s =
      if skip q.scope
      then record s { rows = []; total = 0 }
      else record s { loading = true; by_hand = q ∷ s.by_hand }

  -- The rest of the effect's run.
  unfoldable pub effect_answered : {A : Type 0} → Answer (PageResult A) → Listing A → Listing A
  effect_answered (answered r) s = elim s.live [
    | none ↦ s
    | some q ↦ commit s.query (show r (record s { live = none; loading = false }))
  ]
  effect_answered (failed e) s = elim s.live [
    | none ↦ s
    | some q ↦ record s { live = none; loading = false }
  ]

  -- The rest of `loadTenants` and `loadProducts`.
  unfoldable pub by_hand_answered : {A : Type 0} → ℕ → Answer (PageResult A) → Listing A → Listing A
  by_hand_answered n (answered r) s =
      let s' = record s { by_hand = without_item n s.by_hand; loading = false } in
      elim (item_at n s.by_hand) [ none ↦ s | some q ↦ commit s.query (show r s') ]
  by_hand_answered n (failed e) s = elim (item_at n s.by_hand) [
    | none ↦ s
    | some q ↦ record s { by_hand = without_item n s.by_hand; loading = false }
  ]

  unfoldable pub step : {A : Type 0} → Event A → Listing A → Listing A
  step (ask q) s = ask_for q s
  step translate s = run_effect s
  step (load q) s = load_by_hand q s
  step (answer a) s = effect_answered a s
  -- A cancelled run returns before it changes anything.
  step (late n a) s = record s { cancelled = without_item n s.cancelled }
  step (late_by_hand n a) s = by_hand_answered n a s

  unfoldable pub run : {A : Type 0} → List (Event A) → Listing A → Listing A
  run [] s = s
  run (e ∷ es) s = run es (step e s)

  -- The first render.
  unfoldable pub mount : {A : Type 0} → Query → Listing A
  mount q = run_effect (record {
    rows = [];
    total = 0;
    query = q;
    loading = false;
    live = none;
    cancelled = [];
    by_hand = [];
  })

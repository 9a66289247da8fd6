-- ===== src/PagedList/Examples.antt =====
-- Runs of the list of PagedList, with names of tenants as rows.
use linkflow_v.Prelude.{
  String, Bool, true, false, ◌&&◌, none, some, List, [], ◌∷◌, ◌==◌, ◌≡◌, refl, all, leb,
}
use linkflow_v.Answers.{answered, failed}
use linkflow_v.Services.Call.{PageResult}
use linkflow_v.PagedList.{
  Query, Listing, Event, ask, load, answer, late, late_by_hand, mount, run, step, ask_for,
  load_by_hand, effect_answered, by_hand_answered,
}
use linkflow_v.PagedList.Fresh.{shown}
use linkflow_v.PagedList.Shows.{run-answers}
use linkflow_v.PagedList.Settles.{deliver, deliver-deliver, run-loading, never}

abbrev no_scope : String → Bool
no_scope scope = scope == ""

abbrev first_of : String → Query
first_of tenant = record { scope = tenant; page = 1; page_size = 10 }

abbrev rows_of : Query → PageResult String → Bool
rows_of q r = all (λ row. row == q.scope) r.items && leb 1 r.page

abbrev page_of : String → PageResult String
page_of tenant = record { items = tenant ∷ []; total = 1; page = 1; page_size = 10 }

-- The tenant changes while a page is read, and a handler reads it once more.
abbrev switch : List (Event String)
switch =
    ask (first_of "t2")
    ∷ late 0 (answered (page_of "t1"))
    ∷ answer (answered (page_of "t2"))
    ∷ load (first_of "t2")
    ∷ late_by_hand 0 (answered (page_of "t2"))
    ∷ []

run-answers_example :
    rows_of
      (run no_scope switch (mount no_scope (first_of "t1"))).query
      (shown (run no_scope switch (mount no_scope (first_of "t1"))))
    ≡ true
unfolding run step mount ask_for load_by_hand effect_answered by_hand_answered
run-answers_example =
    run-answers no_scope rows_of (λ q r h. h) (first_of "t1") switch refl refl refl

-- A reading of a handler that is answered after a change of the tenant fills the list of the new
-- tenant with rows of the old one, and nothing is pending that would replace them.
abbrev overtaken : List (Event String)
overtaken =
    answer (answered (page_of "t1"))
    ∷ load (first_of "t1")
    ∷ ask (first_of "t2")
    ∷ answer (answered (page_of "t2"))
    ∷ late_by_hand 0 (answered (page_of "t1"))
    ∷ []

overtaken-run : run no_scope overtaken (mount no_scope (first_of "t1")) ≡ record {
  rows = "t1" ∷ [];
  total = 1;
  query = first_of "t2";
  loading = false;
  live = none;
  cancelled = [];
  by_hand = [];
}
unfolding run step mount ask_for load_by_hand effect_answered by_hand_answered
overtaken-run = refl

-- The end of a handler's reading clears `loading` while the effect still reads.
still_reading-loading :
    (run no_scope {A = String}
      (load (first_of "t1") ∷ late_by_hand 0 (failed none) ∷ [])
      (mount no_scope (first_of "t1")))
    ≡ record {
      rows = [];
      total = 0;
      query = first_of "t1";
      loading = false;
      live = some (first_of "t1");
      cancelled = [];
      by_hand = [];
    }
unfolding run step mount ask_for load_by_hand effect_answered by_hand_answered
still_reading-loading = refl

-- A service that has one page.
abbrev one_page : Query → PageResult String
one_page q = record { items = q.scope ∷ []; total = 1; page = 1; page_size = q.page_size }

abbrev third_page : Listing String
third_page = record {
  rows = [];
  total = 0;
  query = record { scope = "t1"; page = 3; page_size = 10 };
  loading = true;
  live = some (record { scope = "t1"; page = 3; page_size = 10 });
  cancelled = [];
  by_hand = [];
}

deliver-deliver_example :
    ((deliver no_scope one_page (deliver no_scope one_page third_page)).live ≡ none)
    × ((deliver no_scope one_page (deliver no_scope one_page third_page)).loading ≡ false)
    × (shown (deliver no_scope one_page (deliver no_scope one_page third_page))
        ≡ one_page (deliver no_scope one_page (deliver no_scope one_page third_page)).query)
    × ((deliver no_scope one_page (deliver no_scope one_page third_page)).query.scope ≡ "t1")
deliver-deliver_example = deliver-deliver no_scope one_page (λ q. refl) third_page refl refl

run-loading_example :
    (run never (ask (first_of "") ∷ answer (failed none) ∷ []) third_page).loading ≡ false
unfolding run step ask_for effect_answered
run-loading_example =
    run-loading (ask (first_of "") ∷ answer (failed none) ∷ []) third_page refl refl

-- ===== src/EditPage/Refines.antt =====
-- The handlers of EditPage change the list only by events of PagedList, so the page shows what
-- PagedList promises.
use linkflow_v.Prelude.{
  ◌-◌, String, Bool, true, false, ◌&&◌, Option, none, some, List, [], ◌∷◌, ◌++◌, ◌≡◌, refl, sym, ap,
  ◌∙◌, subst, eqb, ltb, length, if◌then◌else◌, Bool-cases, inl, inr,
}
use linkflow_v.Answers.{answered, failed, FormMode, create, edit}
use linkflow_v.Services.Call.{PageResult}
use linkflow_v.PagedList.{
  Query, Listing, Event, ask, translate, load, answer, late, late_by_hand, step, run, load_by_hand,
}
use linkflow_v.PagedList.Fresh.{all_fine, answered_query, shown}
use linkflow_v.PagedList.Shows.{run-answers}
use linkflow_v.EditPage.Events.{
  PageEvent, choose_page, choose_page_size, change_language, list_answer, late_answer, click_create,
  click_edit, click_close, fill_in, choose_tenant, click_submit, saved, saved_list, click_delete,
  deleted, deleted_list, page_step, page_run,
}
use linkflow_v.EditPage.{
  PageOps, EditPage, open_page, open_create_form, open_edit_form, close_form, handle_tenant_change,
  query_of, page_to_load, submit_call, handle_submit, first_page, submit_answered, submit_loaded,
  handle_delete, delete_answered, delete_loaded,
}

module _ {A F C : Type 0} (ops : PageOps A F C) where
  -- The events of the list that an event of the page is.
  abbrev reading : Option FormMode → EditPage A F C → List (Event A)
  reading mode c = load (query_of ops c (page_to_load ops mode c.listing.query.page)) ∷ []

  abbrev after_save : Option FormMode → EditPage A F C → EditPage A F C → List (Event A)
  after_save (some create) c s =
      ask (record (s.listing.query) { page = 1 }) ∷ reading (some create) c
  after_save (some edit) c s = reading (some edit) c
  after_save none c s = reading none c

  abbrev on_submit : Option FormMode → Option A → EditPage A F C → List (Event A)
  on_submit (some create) item s = []
  on_submit (some edit) (some item) s = []
  on_submit (some edit) none s = reading (some edit) s
  on_submit none item s = reading none s

  abbrev on_deleted : EditPage A F C → EditPage A F C → List (Event A)
  on_deleted c s =
      if eqb (length c.listing.rows) 1 && ltb 1 c.listing.query.page
      then ask (record (s.listing.query) { page = s.listing.query.page - 1 }) ∷ []
      else load c.listing.query ∷ []

  abbrev pub events_of : PageEvent A F C → EditPage A F C → List (Event A)
  events_of (choose_page page) s = ask (record (s.listing.query) { page = page }) ∷ []
  events_of (choose_page_size page_size) s =
      ask (record (s.listing.query) { page = 1; page_size = page_size }) ∷ []
  events_of change_language s = translate ∷ []
  events_of (list_answer a) s = answer a ∷ []
  events_of (late_answer n a) s = late n a ∷ []
  events_of click_create s = []
  events_of (click_edit item) s = []
  events_of click_close s = []
  events_of (fill_in change) s = []
  events_of (choose_tenant scope) s =
      ask (record (s.listing.query) { scope = scope; page = 1 }) ∷ []
  events_of click_submit s =
      if ops.skip s.listing.query.scope then [] else on_submit s.form_mode s.editing s
  events_of (saved c (answered r)) s = after_save c.form_mode c s
  events_of (saved c (failed e)) s = []
  events_of (saved_list n a) s = late_by_hand n a ∷ []
  events_of (click_delete confirmed item) s = []
  events_of (deleted c (answered r)) s = on_deleted c s
  events_of (deleted c (failed e)) s = []
  events_of (deleted_list n a) s = late_by_hand n a ∷ []

  abbrev pub all_events : List (PageEvent A F C) → EditPage A F C → List (Event A)
  all_events [] s = []
  all_events (e ∷ es) s = events_of e s ++ all_events es (page_step ops e s)

  run-append :
      (skip : String → Bool) (es fs : List (Event A)) (l : Listing A)
      → run skip (es ++ fs) l ≡ run skip fs (run skip es l)
  unfolding run
  run-append skip [] fs l = refl
  run-append skip (e ∷ es) fs l = run-append skip es fs (step skip e l)

  after_save-listing :
      (mode : Option FormMode) (c s : EditPage A F C)
      → load_by_hand ops.skip
          (query_of ops c (page_to_load ops mode c.listing.query.page))
          (first_page ops mode s.listing)
        ≡ run ops.skip (after_save mode c s) s.listing
  unfolding run step
  after_save-listing (some create) c s = refl
  after_save-listing (some edit) c s = refl
  after_save-listing none c s = refl

  submit_call-listing :
      (mode : Option FormMode) (item : Option A) (s : EditPage A F C)
      → s.form_mode ≡ mode
      → (submit_call ops mode item s).listing ≡ run ops.skip (on_submit mode item s) s.listing
  unfolding run step
  submit_call-listing (some create) item s e = refl
  submit_call-listing (some edit) (some item) s e = refl
  submit_call-listing (some edit) none s e = rw e refl
  submit_call-listing none item s e = rw e refl

  page_step-listing :
      (e : PageEvent A F C) (s : EditPage A F C)
      → (page_step ops e s).listing ≡ run ops.skip (events_of e s) s.listing
  unfolding page_step run step open_create_form open_edit_form close_form handle_tenant_change
      handle_submit submit_answered submit_loaded handle_delete delete_answered delete_loaded
  page_step-listing (choose_page page) s = refl
  page_step-listing (choose_page_size page_size) s = refl
  page_step-listing change_language s = refl
  page_step-listing (list_answer a) s = refl
  page_step-listing (late_answer n a) s = refl
  page_step-listing click_create s = refl
  page_step-listing (click_edit item) s = refl
  page_step-listing click_close s = refl
  page_step-listing (fill_in change) s = refl
  page_step-listing (choose_tenant scope) s = refl
  page_step-listing click_submit s = elim (Bool-cases (ops.skip s.listing.query.scope)) [
    | inl skipped ↦ rw skipped refl
    | inr asked ↦ rw asked (submit_call-listing s.form_mode s.editing s refl)
  ]
  page_step-listing (saved c (answered r)) s = after_save-listing c.form_mode c s
  page_step-listing (saved c (failed e)) s = refl
  page_step-listing (saved_list n a) s = refl
  page_step-listing (click_delete confirmed item) s = elim (Bool-cases confirmed) [
    | inl sure ↦ rw sure refl
    | inr unsure ↦ rw unsure refl
  ]
  page_step-listing (deleted c (answered r)) s =
      elim (Bool-cases (eqb (length c.listing.rows) 1 && ltb 1 c.listing.query.page)) [
        | inl alone ↦ rw alone refl
        | inr others ↦ rw others refl
      ]
  page_step-listing (deleted c (failed e)) s = refl
  page_step-listing (deleted_list n a) s = refl

  page_run-listing :
      (es : List (PageEvent A F C)) (s : EditPage A F C)
      → (page_run ops es s).listing ≡ run ops.skip (all_events es s) s.listing
  unfolding page_run run
  page_run-listing [] s = refl
  page_run-listing (e ∷ es) s =
      page_run-listing es (page_step ops e s)
      ∙ ap (run ops.skip (all_events es (page_step ops e s))) (page_step-listing e s)
      ∙ sym (run-append ops.skip (events_of e s) (all_events es (page_step ops e s)) s.listing)

  -- After events of the page (its controls, the form, `handleSubmit` and `handleDelete` with any
  -- answers) that meet the conditions below, the list shows the service's answer to the tenant, the page and the
  -- size that the page has, where no request of the effect is pending and the tenant is not one
  -- that the page skips. The service is any relation `answers` between queries and answers in which
  -- a query for the page and size of an answer has that answer. Of the events it is assumed that
  -- the answers to readings of the list are ones of the service, that the effect's requests do
  -- not fail, and that a handler's reading starts and is answered in the tenant of the page.
  pub page_run-answers :
      (answers : Query → PageResult A → Bool)
      → ((q : Query) (r : PageResult A)
          → answers q r ≡ true
          → answers (answered_query q r) r ≡ true)
      → (scope : String) (es : List (PageEvent A F C))
      → all_fine ops.skip answers
          (all_events es (open_page ops scope))
          (open_page ops scope).listing
        ≡ true
      → (page_run ops es (open_page ops scope)).listing.live ≡ none
      → ops.skip (page_run ops es (open_page ops scope)).listing.query.scope ≡ false
      → answers
          (page_run ops es (open_page ops scope)).listing.query
          (shown (page_run ops es (open_page ops scope)).listing)
        ≡ true
  unfolding open_page
  page_run-answers answers stable scope es fine idle asked =
      let q : Query = record { scope = scope; page = 1; page_size = 10 } in
      let e = page_run-listing es (open_page ops scope) in
      subst (λ l. answers l.query (shown l) ≡ true) (sym e)
        (run-answers ops.skip answers stable q (all_events es (open_page ops scope)) fine
          (subst (λ l. l.live ≡ none) e idle) (subst (λ l. ops.skip l.query.scope ≡ false) e asked))

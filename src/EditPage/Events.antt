-- ===== src/EditPage/Events.antt =====
-- What can happen to a page of EditPage, and the runs of the page.
use linkflow_v.Prelude.{ℕ, String, Bool, Option, none, some, List, [], ◌∷◌}
use linkflow_v.Answers.{Answer, Notice}
use linkflow_v.Services.Call.{PageResult}
use linkflow_v.PagedList.{Query, late, step, ask_for, effect_answered, run_effect}
use linkflow_v.EditPage.{
  PageOps, EditPage, open_create_form, open_edit_form, close_form, handle_tenant_change,
  handle_submit, submit_answered, submit_loaded, handle_delete, delete_answered, delete_loaded,
  load_notice,
}

-- What can happen to a page. The page that a handler closed over is any page.
pub data PageEvent (A F C : Type 0) : Type 0 where
  choose_page choose_page_size : ℕ → PageEvent A F C
  change_language : PageEvent A F C
  list_answer : Answer (PageResult A) → PageEvent A F C
  late_answer : ℕ → Answer (PageResult A) → PageEvent A F C
  click_create : PageEvent A F C
  click_edit : A → PageEvent A F C
  click_close : PageEvent A F C
  fill_in : (F → F) → PageEvent A F C
  choose_tenant : String → PageEvent A F C
  click_submit : PageEvent A F C
  saved : EditPage A F C → Answer (Unit {0}) → PageEvent A F C
  saved_list : ℕ → Answer (PageResult A) → PageEvent A F C
  click_delete : Bool → A → PageEvent A F C
  deleted : EditPage A F C → Answer (Unit {0}) → PageEvent A F C
  deleted_list : ℕ → Answer (PageResult A) → PageEvent A F C

module _ {A F C : Type 0} (ops : PageOps A F C) where
  abbrev live_notice : Option Query → Answer (PageResult A) → List Notice → List Notice
  live_notice none a notices = notices
  live_notice (some q) a notices = load_notice ops a notices

  unfoldable pub page_step : PageEvent A F C → EditPage A F C → EditPage A F C
  page_step (choose_page page) s = record s {
    listing = ask_for ops.skip (record (s.listing.query) { page = page }) s.listing;
  }
  page_step (choose_page_size page_size) s = record s {
    listing =
        ask_for ops.skip (record (s.listing.query) { page = 1; page_size = page_size }) s.listing;
  }
  page_step change_language s = record s { listing = run_effect ops.skip s.listing }
  page_step (list_answer a) s = record s {
    listing = effect_answered ops.skip a s.listing;
    notified = live_notice s.listing.live a s.notified;
  }
  page_step (late_answer n a) s = record s { listing = step ops.skip (late n a) s.listing }
  page_step click_create s = open_create_form ops s
  page_step (click_edit item) s = open_edit_form ops item s
  page_step click_close s = close_form ops s
  page_step (fill_in change) s = record s { form = change s.form }
  page_step (choose_tenant scope) s = handle_tenant_change ops scope s
  page_step click_submit s = handle_submit ops s
  page_step (saved c a) s = submit_answered ops c a s
  page_step (saved_list n a) s = submit_loaded ops n a s
  page_step (click_delete confirmed item) s = handle_delete ops confirmed item s
  page_step (deleted c a) s = delete_answered ops c a s
  page_step (deleted_list n a) s = delete_loaded ops n a s

  unfoldable pub page_run : List (PageEvent A F C) → EditPage A F C → EditPage A F C
  page_run [] s = s
  page_run (e ∷ es) s = page_run es (page_step e s)

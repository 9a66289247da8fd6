-- ===== src/EditPage.antt =====
-- What the pages of tenants and of products have in common: a list as in PagedList, a form that
-- creates or edits one row, and the deletion of a row (`openCreateForm`, `openEditForm`, `closeForm`,
-- `handleTenantChange`, `handleSubmit`, `handleDelete` of web/src/pages/Admin/TenantManagement.tsx and
-- ProductManagement.tsx). An asynchronous handler is one function for each part between two `await`s;
-- a part after an `await` has the page that the handler closed over as its first argument.
pub mod Events
pub mod Refines
use linkflow_v.Prelude.{
  ℕ, ◌-◌, String, Bool, true, false, not, ◌&&◌, Option, none, some, List, [], ◌∷◌, eqb, ltb, length,
  if◌then◌else◌,
}
use linkflow_v.Answers.{Answer, answered, failed, Notice, success, error, FormMode, create, edit}
use linkflow_v.Services.Call.{PageResult}
use linkflow_v.PagedList.{
  Query, Listing, Event, ask, translate, answer, late, mount, step, ask_for, load_by_hand,
  by_hand_answered,
}

-- The rows, the form and the calls of a page, and the keys of its messages.
pub record PageOps (A F C : Type 0) : Type 0 where
  pub skip : String → Bool
  pub id_of : A → String
  pub empty_form : F
  pub to_form_state : A → F
  pub create_call : String → F → C
  pub update_call : A → F → C
  pub delete_call : A → C
  pub load_failed : String
  pub create_success : String
  pub create_failed : String
  pub update_success : String
  pub update_failed : String
  pub delete_success : String
  pub delete_failed : String

pub record EditPage (A F C : Type 0) : Type 0 where
  pub listing : Listing A
  pub saving : Bool
  pub deleting_id : Option String
  pub form_mode : Option FormMode
  pub editing : Option A
  pub form : F
  -- The calls and the notifications, latest first.
  pub sent : List C
  pub notified : List Notice

module _ {A F C : Type 0} (ops : PageOps A F C) where
  unfoldable pub open_page : String → EditPage A F C
  open_page scope = record {
    listing = mount ops.skip (record { scope = scope; page = 1; page_size = 10 });
    saving = false;
    deleting_id = none;
    form_mode = none;
    editing = none;
    form = ops.empty_form;
    sent = [];
    notified = [];
  }

  unfoldable pub open_create_form : EditPage A F C → EditPage A F C
  open_create_form s = record s { editing = none; form = ops.empty_form; form_mode = some create }

  unfoldable pub open_edit_form : A → EditPage A F C → EditPage A F C
  open_edit_form item s = record s {
    editing = some item;
    form = ops.to_form_state item;
    form_mode = some edit;
  }

  unfoldable pub close_form : EditPage A F C → EditPage A F C
  close_form s = record s { form_mode = none; editing = none; form = ops.empty_form }

  unfoldable pub handle_tenant_change : String → EditPage A F C → EditPage A F C
  unfolding close_form
  handle_tenant_change next_tenant_id s = close_form (record s {
    listing =
        ask_for ops.skip (record (s.listing.query) { scope = next_tenant_id; page = 1 }) s.listing;
  })

  abbrev pub load_notice : Answer (PageResult A) → List Notice → List Notice
  load_notice (answered r) notices = notices
  load_notice (failed e) notices = error ops.load_failed e ∷ notices

  -- The query of `loadTenants` and `loadProducts`, with the tenant of the page closed over.
  abbrev pub query_of : EditPage A F C → ℕ → Query
  query_of c next_page = record (c.listing.query) { page = next_page }

  abbrev pub page_to_load : Option FormMode → ℕ → ℕ
  page_to_load (some create) current = 1
  page_to_load (some edit) current = current
  page_to_load none current = current

  -- `closeForm` and the call of the reading at the end of `handleSubmit`.
  abbrev pub close_and_load : EditPage A F C → EditPage A F C → EditPage A F C
  close_and_load c s = record s {
    form_mode = none;
    editing = none;
    form = ops.empty_form;
    listing =
        load_by_hand ops.skip (query_of c (page_to_load c.form_mode c.listing.query.page))
          s.listing;
  }

  abbrev pub submit_call : Option FormMode → Option A → EditPage A F C → EditPage A F C
  submit_call (some create) item s = record s {
    saving = true;
    sent = ops.create_call s.listing.query.scope s.form ∷ s.sent;
  }
  submit_call (some edit) (some item) s = record s {
    saving = true;
    sent = ops.update_call item s.form ∷ s.sent;
  }
  submit_call (some edit) none s = close_and_load s (record s { saving = true })
  submit_call none item s = close_and_load s (record s { saving = true })

  -- `handleSubmit` up to its first `await`.
  unfoldable pub handle_submit : EditPage A F C → EditPage A F C
  handle_submit s =
      if ops.skip s.listing.query.scope then s else submit_call s.form_mode s.editing s

  abbrev pub saved_notice : Option FormMode → String
  saved_notice (some create) = ops.create_success
  saved_notice (some edit) = ops.update_success
  saved_notice none = ops.update_success

  abbrev pub save_failed : Option FormMode → String
  save_failed (some create) = ops.create_failed
  save_failed (some edit) = ops.update_failed
  save_failed none = ops.update_failed

  -- `setPage(1)`, after a creation only.
  abbrev pub first_page : Option FormMode → Listing A → Listing A
  first_page (some create) l = ask_for ops.skip (record (l.query) { page = 1 }) l
  first_page (some edit) l = l
  first_page none l = l

  -- From the answer of `createTenant` or `updateTenant` to the reading of the list.
  unfoldable pub submit_answered :
      {R : Type 0} → EditPage A F C → Answer R → EditPage A F C → EditPage A F C
  submit_answered c (answered r) s = close_and_load c (record s {
    notified = success (saved_notice c.form_mode) ∷ s.notified;
    listing = first_page c.form_mode s.listing;
  })
  submit_answered c (failed e) s = record s {
    notified = error (save_failed c.form_mode) e ∷ s.notified;
    saving = false;
  }

  -- The rest of `handleSubmit`, where its reading is the n-th pending one.
  unfoldable pub submit_loaded : ℕ → Answer (PageResult A) → EditPage A F C → EditPage A F C
  submit_loaded n a s = record s {
    listing = by_hand_answered ops.skip n a s.listing;
    notified = load_notice a s.notified;
    saving = false;
  }

  -- `handleDelete` up to its `await`.
  unfoldable pub handle_delete : Bool → A → EditPage A F C → EditPage A F C
  handle_delete confirmed item s =
      if not confirmed
      then s
      else record s { deleting_id = some (ops.id_of item); sent = ops.delete_call item ∷ s.sent }

  -- The page before, if the page closed over had one row; else the list is read again. Reading a
  -- scope that is skipped comes back at once.
  abbrev pub after_delete : EditPage A F C → EditPage A F C → EditPage A F C
  after_delete c s =
      if eqb (length c.listing.rows) 1 && ltb 1 c.listing.query.page
      then record s {
        listing =
            ask_for ops.skip (record (s.listing.query) { page = s.listing.query.page - 1 })
              s.listing;
        deleting_id = none;
      }
      else record s {
        listing = load_by_hand ops.skip c.listing.query s.listing;
        deleting_id = if ops.skip c.listing.query.scope then none else s.deleting_id;
      }

  unfoldable pub delete_answered :
      {R : Type 0} → EditPage A F C → Answer R → EditPage A F C → EditPage A F C
  delete_answered c (answered r) s =
      after_delete c (record s { notified = success ops.delete_success ∷ s.notified })
  delete_answered c (failed e) s = record s {
    notified = error ops.delete_failed e ∷ s.notified;
    deleting_id = none;
  }

  -- The rest of `handleDelete`, where its reading is the n-th pending one.
  unfoldable pub delete_loaded : ℕ → Answer (PageResult A) → EditPage A F C → EditPage A F C
  delete_loaded n a s = record s {
    listing = by_hand_answered ops.skip n a s.listing;
    notified = load_notice a s.notified;
    deleting_id = none;
  }

-- ===== src/ProductPage/Examples.antt =====
-- Runs of the page of products.
use linkflow_v.Prelude.{
  String, Bool, true, false, ◌&&◌, none, some, List, [], ◌∷◌, ◌==◌, ◌≡◌, refl, all, leb,
}
use linkflow_v.Answers.{answered, create}
use linkflow_v.Services.Call.{PageResult}
use linkflow_v.Services.Products.{Product, active, direct, secret, mqtt}
use linkflow_v.PagedList.{
  Query, mount, run, step, ask_for, load_by_hand, effect_answered, by_hand_answered,
}
use linkflow_v.PagedList.Fresh.{shown}
use linkflow_v.EditPage
use linkflow_v.EditPage.{
  EditPage, submit_answered, submit_loaded, handle_submit, handle_delete, delete_answered,
  open_create_form, handle_tenant_change, close_form,
}
use linkflow_v.EditPage.Events.{
  PageEvent, list_answer, click_create, choose_tenant, click_submit, saved, saved_list, page_run,
  page_step, deleted, deleted_list, click_delete,
}
use linkflow_v.EditPage.Refines.{page_run-answers}
use linkflow_v.ProductPage.{ProductList, ProductFormState, ProductCall, product_ops, empty_form}

abbrev product_of : String → Product
product_of tenant = record {
  id = "p1";
  tenant_id = tenant;
  product_key = "key";
  product_name = "Pump";
  description = "";
  node_type = direct;
  auth_type = secret;
  protocol_type = mqtt;
  status = active;
  created_at = "2026-01-01";
  updated_at = "2026-01-01";
}

abbrev products_of : String → PageResult Product
products_of tenant = record { items = product_of tenant ∷ []; total = 1; page = 1; page_size = 10 }

abbrev are_products_of : Query → PageResult Product → Bool
are_products_of q r = all (λ product. product.tenant_id == q.scope) r.items && leb 1 r.page

-- The page as `handleSubmit` and `handleDelete` closed over it.
abbrev page_closed_over : ProductList
page_closed_over = record {
  listing = record {
    rows = product_of "t1" ∷ [];
    total = 1;
    query = record { scope = "t1"; page = 1; page_size = 10 };
    loading = false;
    live = none;
    cancelled = [];
    by_hand = [];
  };
  saving = false;
  deleting_id = none;
  form_mode = some create;
  editing = none;
  form = empty_form;
  sent = [];
  notified = [];
}

-- A product is created while the tenant stays.
abbrev creation : List (PageEvent Product ProductFormState ProductCall)
creation =
    choose_tenant "t1"
    ∷ list_answer (answered (products_of "t1"))
    ∷ click_create
    ∷ click_submit
    ∷ saved page_closed_over (answered tt)
    ∷ saved_list 0 (answered (products_of "t1"))
    ∷ []

page_run-answers_example :
    are_products_of
      (page_run product_ops creation (EditPage.open_page product_ops "")).listing.query
      (shown (page_run product_ops creation (EditPage.open_page product_ops "")).listing)
    ≡ true
unfolding run step mount ask_for load_by_hand effect_answered by_hand_answered EditPage.open_page
    page_run page_step handle_tenant_change close_form open_create_form handle_submit
    submit_answered submit_loaded
page_run-answers_example =
    page_run-answers product_ops are_products_of (λ q r h. h) "" creation refl refl refl

-- The tenant changes while the list is read after a deletion: at the end the page of the new tenant
-- shows a product of the old one, and no request is pending.
abbrev deletion : List (PageEvent Product ProductFormState ProductCall)
deletion =
    choose_tenant "t1"
    ∷ list_answer (answered (products_of "t1"))
    ∷ click_delete true (product_of "t1")
    ∷ deleted page_closed_over (answered tt)
    ∷ choose_tenant "t2"
    ∷ list_answer (answered (products_of "t2"))
    ∷ deleted_list 0 (answered (products_of "t1"))
    ∷ []

deletion-page_run :
    (page_run product_ops deletion (EditPage.open_page product_ops "")).listing ≡ record {
      rows = product_of "t1" ∷ [];
      total = 1;
      query = record { scope = "t2"; page = 1; page_size = 10 };
      loading = false;
      live = none;
      cancelled = [];
      by_hand = [];
    }
unfolding run step mount ask_for load_by_hand effect_answered by_hand_answered EditPage.open_page
    page_run page_step handle_tenant_change close_form EditPage.handle_delete
    EditPage.delete_answered EditPage.delete_loaded
deletion-page_run = refl

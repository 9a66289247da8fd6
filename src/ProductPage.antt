-- ===== src/ProductPage.antt =====
-- The page of products: web/src/pages/Admin/ProductManagement.tsx, an EditPage whose scope is the
-- tenant, with the choice of the tenant above it.
mod Examples
use linkflow_v.Prelude.{ℕ, String, Bool, true, false, List, [], ◌∷◌, ◌==◌, if◌then◌else◌}
use linkflow_v.Js.Text.{trim}
use linkflow_v.Answers.{Answer, answered, failed, error}
use linkflow_v.Services.Call.{ApiCall, PageResult}
use linkflow_v.Services.Tenants.{Tenant}
use linkflow_v.Services.Products.{
  Product, ProductNodeType, ProductAuthType, ProductProtocolType, ProductStatus, direct, secret,
  mqtt, active, ProductListParams, ProductCreateInput, ProductUpdateInput, list_products,
  create_product, update_product, delete_product,
}
use linkflow_v.PagedList.{Query, ask_for}
use linkflow_v.EditPage
use linkflow_v.EditPage.{PageOps, EditPage}

pub record ProductFormState : Type 0 where
  pub product_key : String
  pub product_name : String
  pub description : String
  pub node_type : ProductNodeType
  pub auth_type : ProductAuthType
  pub protocol_type : ProductProtocolType
  pub status : ProductStatus

abbrev pub empty_form : ProductFormState
empty_form = record {
  product_key = "";
  product_name = "";
  description = "";
  node_type = direct;
  auth_type = secret;
  protocol_type = mqtt;
  status = active;
}

unfoldable pub to_form_state : Product → ProductFormState
to_form_state product = record {
  product_key = product.product_key;
  product_name = product.product_name;
  description = product.description;
  node_type = product.node_type;
  auth_type = product.auth_type;
  protocol_type = product.protocol_type;
  status = product.status;
}

pub data ProductCall : Type 0 where
  created : ApiCall ProductCreateInput → ProductCall
  updated : ApiCall ProductUpdateInput → ProductCall
  deleted : ApiCall (Unit {0}) → ProductCall

-- What the effect and `loadProducts` send for a query.
unfoldable pub list_call : Query → ApiCall ProductListParams
list_call q = list_products (record { tenant_id = q.scope; page = q.page; page_size = q.page_size })

abbrev pub create_input : String → ProductFormState → ProductCreateInput
create_input tenant_id form = record {
  tenant_id = tenant_id;
  product_key = trim form.product_key;
  product_name = trim form.product_name;
  description = trim form.description;
  node_type = form.node_type;
  auth_type = form.auth_type;
  protocol_type = form.protocol_type;
}

abbrev pub update_input : ProductFormState → ProductUpdateInput
update_input form = record {
  product_name = trim form.product_name;
  description = trim form.description;
  node_type = form.node_type;
  auth_type = form.auth_type;
  protocol_type = form.protocol_type;
  status = form.status;
}

-- `!tenantId`.
abbrev pub no_tenant : String → Bool
no_tenant tenant_id = tenant_id == ""

abbrev pub product_ops : PageOps Product ProductFormState ProductCall
product_ops = record {
  skip = no_tenant;
  id_of = λ product. product.id;
  empty_form = empty_form;
  to_form_state = to_form_state;
  create_call = λ tenant_id form. created (create_product (create_input tenant_id form));
  update_call = λ product form. updated (update_product product.id (update_input form));
  delete_call = λ product. deleted (delete_product product.id);
  load_failed = "adminProductLoadFailed";
  create_success = "adminProductCreateSuccess";
  create_failed = "adminProductCreateFailed";
  update_success = "adminProductUpdateSuccess";
  update_failed = "adminProductUpdateFailed";
  delete_success = "adminProductDeleteSuccess";
  delete_failed = "adminProductDeleteFailed";
}

abbrev pub ProductList : Type 0
ProductList = EditPage Product ProductFormState ProductCall

pub record ProductPage : Type 0 where
  pub tenants : List Tenant
  pub page : ProductList

-- `current || result.items[0]?.id || ''`.
abbrev pub first_tenant_id : List Tenant → String
first_tenant_id [] = ""
first_tenant_id (tenant ∷ tenants) = tenant.id

abbrev pub tenant_or_first : String → List Tenant → String
tenant_or_first current tenants = if current == "" then first_tenant_id tenants else current

-- What the effect of the tenants does with the answer of `listTenants`.
unfoldable pub tenants_loaded : Bool → Answer (PageResult Tenant) → ProductPage → ProductPage
tenants_loaded true answer s = s
tenants_loaded false (answered result) s = record s {
  tenants = result.items;
  page = record (s.page) {
    listing =
        ask_for no_tenant
          (record (s.page.listing.query) {
            scope = tenant_or_first s.page.listing.query.scope result.items;
          })
          s.page.listing;
  };
}
tenants_loaded false (failed e) s = record s {
  page = record (s.page) { notified = error "adminTenantLoadFailed" e ∷ s.page.notified };
}

-- The handlers, for products.
abbrev pub open_page : ProductList
open_page = EditPage.open_page product_ops ""

abbrev pub handle_tenant_change : String → ProductList → ProductList
handle_tenant_change = EditPage.handle_tenant_change product_ops

abbrev pub open_create_form : ProductList → ProductList
open_create_form = EditPage.open_create_form product_ops

abbrev pub open_edit_form : Product → ProductList → ProductList
open_edit_form = EditPage.open_edit_form product_ops

abbrev pub close_form : ProductList → ProductList
close_form = EditPage.close_form product_ops

abbrev pub handle_submit : ProductList → ProductList
handle_submit = EditPage.handle_submit product_ops

abbrev pub submit_answered : {R : Type 0} → ProductList → Answer R → ProductList → ProductList
submit_answered = EditPage.submit_answered product_ops

abbrev pub submit_loaded : ℕ → Answer (PageResult Product) → ProductList → ProductList
submit_loaded = EditPage.submit_loaded product_ops

abbrev pub handle_delete : Bool → Product → ProductList → ProductList
handle_delete = EditPage.handle_delete product_ops

abbrev pub delete_answered : {R : Type 0} → ProductList → Answer R → ProductList → ProductList
delete_answered = EditPage.delete_answered product_ops

abbrev pub delete_loaded : ℕ → Answer (PageResult Product) → ProductList → ProductList
delete_loaded = EditPage.delete_loaded product_ops

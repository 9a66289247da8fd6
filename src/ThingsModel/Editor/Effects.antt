-- ===== src/ThingsModel/Editor/Effects.antt =====
-- The effects of web/src/pages/Admin/ThingsModelManagement.tsx that read the tenants, the products and
-- the models, each up to its `await` and after it.
use linkflow_v.Prelude.{
  String, Bool, true, false, List, [], ◌∷◌, ◌==◌, ◌≡◌, ◌≢◌, refl, arith, eq_iff, if◌then◌else◌,
}
use linkflow_v.Services.Call.{PageResult}
use linkflow_v.Services.Tenants.{Tenant}
use linkflow_v.Services.Products.{Product}
use linkflow_v.Services.ThingsModels.{ThingsModel, list_things_models}
use linkflow_v.ThingsModel.Editor.{
  list_params, load_models, Failure, Answer, answered, failed, error, listed, Editor,
  first_product_id, or_text,
}

abbrev pub first_tenant_id : List Tenant → String
first_tenant_id [] = ""
first_tenant_id (tenant ∷ tenants) = tenant.id

module _ {N : Type 0} where
  abbrev pub tell_failure : String → Failure → Editor N → Editor N
  tell_failure key e s = record s { notified = error key e.description ∷ s.notified }

  unfoldable pub tenants_loaded : Bool → Answer (PageResult Tenant) → Editor N → Editor N
  tenants_loaded true a s = s
  tenants_loaded false (answered r) s = record s {
    tenant_id = or_text s.tenant_id (first_tenant_id r.items);
  }
  tenants_loaded false (failed e) s = tell_failure "adminTenantLoadFailed" e s

  unfoldable pub clear_products : Editor N → Editor N
  clear_products s =
      if s.tenant_id == "" then record s { products = []; product_filter = "" } else s

  unfoldable pub products_loaded : Bool → Answer (PageResult Product) → Editor N → Editor N
  products_loaded true a s = s
  products_loaded false (answered r) s = record s {
    products = r.items;
    form = record (s.form) { product_id = or_text s.form.product_id (first_product_id r.items) };
  }
  products_loaded false (failed e) s = tell_failure "adminProductLoadFailed" e s

  unfoldable pub read_models : Editor N → Editor N
  read_models s = if s.tenant_id == "" then record s { models = []; total = 0 } else record s {
    loading = true;
    sent = listed (list_things_models (list_params s.page s.page_size s)) ∷ s.sent;
  }

  unfoldable pub models_read : Bool → Answer (PageResult (ThingsModel N)) → Editor N → Editor N
  models_read true a s = s
  models_read false (answered r) s = record s {
    models = r.items;
    total = r.total;
    page = r.page;
    page_size = r.page_size;
    loading = false;
  }
  models_read false (failed e) s =
      tell_failure "adminThingsModelLoadFailed" e (record s { loading = false })

  -- With a tenant, the effect reads the list as `loadModels` does for the page and the size of the
  -- page: after the answer, or the failure, of a run that is not cancelled the state is the same.
  pub models_read-read_models :
      (a : Answer (PageResult (ThingsModel N))) (s : Editor N)
      → s.tenant_id ≢ ""
      → models_read false a (read_models s) ≡ load_models a s.page s.page_size s
  unfolding models_read read_models load_models
  models_read-read_models (answered r) s h =
      let n : (s.tenant_id == "") ≡ false = ground (arith, eq_iff s.tenant_id "") in rw n refl
  models_read-read_models (failed e) s h =
      let n : (s.tenant_id == "") ≡ false = ground (arith, eq_iff s.tenant_id "") in rw n refl

-- ===== src/TenantPage.antt =====
-- The page of tenants: web/src/pages/Admin/TenantManagement.tsx, an EditPage whose list has no scope.
use linkflow_v.Prelude.{String, false}
use linkflow_v.Js.Text.{trim}
use linkflow_v.Services.Call.{ApiCall}
use linkflow_v.Services.Tenants.{
  Tenant, TenantStatus, active, TenantListParams, TenantCreateInput, TenantUpdateInput,
  list_tenants, create_tenant, update_tenant, delete_tenant,
}
use linkflow_v.PagedList.{Query}
use linkflow_v.EditPage.{PageOps}

pub record TenantFormState : Type 0 where
  pub tenant_slug : String
  pub tenant_name : String
  pub status : TenantStatus

abbrev pub empty_form : TenantFormState
empty_form = record { tenant_slug = ""; tenant_name = ""; status = active }

unfoldable pub to_form_state : Tenant → TenantFormState
to_form_state tenant = record {
  tenant_slug = tenant.tenant_slug;
  tenant_name = tenant.tenant_name;
  status = tenant.status;
}

pub data TenantCall : Type 0 where
  created : ApiCall TenantCreateInput → TenantCall
  updated : ApiCall TenantUpdateInput → TenantCall
  deleted : ApiCall (Unit {0}) → TenantCall

-- What the effect and `loadTenants` send for a query.
unfoldable pub list_call : Query → ApiCall TenantListParams
list_call q = list_tenants (record { page = q.page; page_size = q.page_size })

abbrev pub create_input : TenantFormState → TenantCreateInput
create_input form = record {
  tenant_slug = trim form.tenant_slug;
  tenant_name = trim form.tenant_name;
}

abbrev pub update_input : TenantFormState → TenantUpdateInput
update_input form = record { tenant_name = trim form.tenant_name; status = form.status }

abbrev pub tenant_ops : PageOps Tenant TenantFormState TenantCall
tenant_ops = record {
  skip = λ scope. false;
  id_of = λ tenant. tenant.id;
  empty_form = empty_form;
  to_form_state = to_form_state;
  create_call = λ scope form. created (create_tenant (create_input form));
  update_call = λ tenant form. updated (update_tenant tenant.id (update_input form));
  delete_call = λ tenant. deleted (delete_tenant tenant.id);
  load_failed = "adminTenantLoadFailed";
  create_success = "adminTenantCreateSuccess";
  create_failed = "adminTenantCreateFailed";
  update_success = "adminTenantUpdateSuccess";
  update_failed = "adminTenantUpdateFailed";
  delete_success = "adminTenantDeleteSuccess";
  delete_failed = "adminTenantDeleteFailed";
}

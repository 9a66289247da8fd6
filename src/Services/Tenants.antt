-- ===== src/Services/Tenants.antt =====
-- Requests about tenants: web/src/services/tenants.ts.
use linkflow_v.Prelude.{Bool, String, ℕ}
use linkflow_v.Services.Call.{ApiCall, delete, get, post, put, nothing, as_params, as_data, ◌⧺◌}

pub data TenantStatus : Type 0 where
  active disabled : TenantStatus

pub record Tenant : Type 0 where
  pub id : String
  pub owner_user_id : String
  pub tenant_slug : String
  pub tenant_name : String
  pub status : TenantStatus
  pub created_at : String
  pub updated_at : String

pub record TenantListParams : Type 0 where
  pub page : ℕ
  pub page_size : ℕ

pub record TenantCreateInput : Type 0 where
  pub tenant_slug : String
  pub tenant_name : String

pub record TenantUpdateInput : Type 0 where
  pub tenant_name : String
  pub status : TenantStatus

pub record TenantDeleteResult : Type 0 where
  pub deleted : Bool

unfoldable pub list_tenants : TenantListParams → ApiCall TenantListParams
list_tenants params = record { method = get; url = "/api/v1/tenants"; payload = as_params params }

unfoldable pub create_tenant : TenantCreateInput → ApiCall TenantCreateInput
create_tenant body = record { method = post; url = "/api/v1/tenants"; payload = as_data body }

unfoldable pub update_tenant : String → TenantUpdateInput → ApiCall TenantUpdateInput
update_tenant tenant_id body = record {
  method = put;
  url = "/api/v1/tenants/" ⧺ tenant_id;
  payload = as_data body;
}

unfoldable pub delete_tenant : String → ApiCall (Unit {0})
delete_tenant tenant_id = record {
  method = delete;
  url = "/api/v1/tenants/" ⧺ tenant_id;
  payload = nothing;
}

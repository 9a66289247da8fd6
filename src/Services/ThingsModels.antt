-- ===== src/Services/ThingsModels.antt =====
-- Requests about things models: web/src/services/thingsmodels.ts. Counts are native numbers, other numbers are of
-- the abstract type.
use linkflow_v.Prelude.{Bool, Option, String, ℕ}
use linkflow_v.Js.Json.{Fields}
use linkflow_v.Services.Call.{ApiCall, delete, get, post, put, nothing, as_params, as_data, ◌⧺◌}

pub data ThingsModelStatus : Type 0 where
  draft published deprecated : ThingsModelStatus

abbrev pub ThingsModelObject : Type 0 → Type 0
ThingsModelObject N = Fields N

pub record ThingsModel (N : Type 0) : Type 0 where
  pub id : String
  pub tenant_id : String
  pub product_id : String
  pub model_version : N
  pub model_name : String
  pub description : String
  pub status : ThingsModelStatus
  pub is_current : Bool
  pub properties : ThingsModelObject N
  pub events : ThingsModelObject N
  pub services : ThingsModelObject N
  pub published_at : Option String
  pub created_at : String
  pub updated_at : String

pub record ThingsModelListParams : Type 0 where
  pub tenant_id : String
  pub product_id : Option String
  pub page : ℕ
  pub page_size : ℕ

pub record ThingsModelCreateInput (N : Type 0) : Type 0 where
  pub tenant_id : String
  pub product_id : String
  pub model_version : N
  pub model_name : String
  pub description : String
  pub status : ThingsModelStatus
  pub is_current : Bool
  pub properties : ThingsModelObject N
  pub events : ThingsModelObject N
  pub services : ThingsModelObject N

pub record ThingsModelUpdateInput (N : Type 0) : Type 0 where
  pub model_name : String
  pub description : String
  pub status : ThingsModelStatus
  pub is_current : Bool
  pub properties : ThingsModelObject N
  pub events : ThingsModelObject N
  pub services : ThingsModelObject N

pub record ThingsModelDeleteResult : Type 0 where
  pub deleted : Bool

unfoldable pub list_things_models : ThingsModelListParams → ApiCall ThingsModelListParams
list_things_models params = record {
  method = get;
  url = "/api/v1/thingsmodels";
  payload = as_params params;
}

unfoldable pub create_things_model :
    {N : Type 0} → (ThingsModelCreateInput N) → ApiCall (ThingsModelCreateInput N)
create_things_model body = record {
  method = post;
  url = "/api/v1/thingsmodels";
  payload = as_data body;
}

unfoldable pub update_things_model :
    {N : Type 0} → String → (ThingsModelUpdateInput N) → ApiCall (ThingsModelUpdateInput N)
update_things_model things_model_id body = record {
  method = put;
  url = "/api/v1/thingsmodels/" ⧺ things_model_id;
  payload = as_data body;
}

unfoldable pub delete_things_model : String → ApiCall (Unit {0})
delete_things_model things_model_id = record {
  method = delete;
  url = "/api/v1/thingsmodels/" ⧺ things_model_id;
  payload = nothing;
}

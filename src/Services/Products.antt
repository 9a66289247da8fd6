-- ===== src/Services/Products.antt =====
-- Requests about products: web/src/services/products.ts.
use linkflow_v.Prelude.{Bool, String, ℕ}
use linkflow_v.Services.Call.{ApiCall, delete, get, post, put, nothing, as_params, as_data, ◌⧺◌}

pub data ProductNodeType : Type 0 where
  direct gateway sub_device : ProductNodeType

pub data ProductAuthType : Type 0 where
  secret certificate anonymous : ProductAuthType

pub data ProductProtocolType : Type 0 where
  mqtt http coap modbus opcua lora : ProductProtocolType

pub data ProductStatus : Type 0 where
  active disabled : ProductStatus

pub record Product : Type 0 where
  pub id : String
  pub tenant_id : String
  pub product_key : String
  pub product_name : String
  pub description : String
  pub node_type : ProductNodeType
  pub auth_type : ProductAuthType
  pub protocol_type : ProductProtocolType
  pub status : ProductStatus
  pub created_at : String
  pub updated_at : String

pub record ProductListParams : Type 0 where
  pub tenant_id : String
  pub page : ℕ
  pub page_size : ℕ

pub record ProductCreateInput : Type 0 where
  pub tenant_id : String
  pub product_key : String
  pub product_name : String
  pub description : String
  pub node_type : ProductNodeType
  pub auth_type : ProductAuthType
  pub protocol_type : ProductProtocolType

pub record ProductUpdateInput : Type 0 where
  pub product_name : String
  pub description : String
  pub node_type : ProductNodeType
  pub auth_type : ProductAuthType
  pub protocol_type : ProductProtocolType
  pub status : ProductStatus

pub record ProductDeleteResult : Type 0 where
  pub deleted : Bool

unfoldable pub list_products : ProductListParams → ApiCall ProductListParams
list_products params = record { method = get; url = "/api/v1/products"; payload = as_params params }

unfoldable pub create_product : ProductCreateInput → ApiCall ProductCreateInput
create_product body = record { method = post; url = "/api/v1/products"; payload = as_data body }

unfoldable pub update_product : String → ProductUpdateInput → ApiCall ProductUpdateInput
update_product product_id body = record {
  method = put;
  url = "/api/v1/products/" ⧺ product_id;
  payload = as_data body;
}

unfoldable pub delete_product : String → ApiCall (Unit {0})
delete_product product_id = record {
  method = delete;
  url = "/api/v1/products/" ⧺ product_id;
  payload = nothing;
}

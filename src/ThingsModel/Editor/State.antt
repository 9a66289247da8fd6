-- ===== src/ThingsModel/Editor/State.antt =====
-- The state of the editor in web/src/pages/Admin/ThingsModelManagement.tsx.
use linkflow_v.Prelude.{ℕ, String, Bool, false, Option, List, [], ◌∷◌, ◌==◌, if◌then◌else◌}
use linkflow_v.Services.Call.{ApiCall}
use linkflow_v.Services.Products.{Product}
use linkflow_v.Services.ThingsModels.{
  ThingsModelStatus, draft, ThingsModel, ThingsModelListParams, ThingsModelCreateInput,
  ThingsModelUpdateInput,
}
use linkflow_v.ThingsModel.Types.{PropertyDraftRow, EventDraftRow, ServiceDraftRow}

pub data FormMode : Type 0 where
  create edit : FormMode

-- The tabs of the form, and the kinds of definitions.
pub data DefinitionField : Type 0 where
  properties events services : DefinitionField

pub record ThingsModelFormState : Type 0 where
  pub product_id : String
  pub model_version : String
  pub model_name : String
  pub description : String
  pub status : ThingsModelStatus
  pub is_current : Bool
  pub properties_text : String
  pub events_text : String
  pub services_text : String

abbrev pub empty_form : ThingsModelFormState
empty_form = record {
  product_id = "";
  model_version = "1";
  model_name = "";
  description = "";
  status = draft;
  is_current = false;
  properties_text = "{}";
  events_text = "{}";
  services_text = "{}";
}

-- A caught value: whether it is a `SyntaxError`, and the message if it is an `Error`.
pub record Failure : Type 0 where
  pub is_syntax_error : Bool
  pub description : Option String

pub data Answer (A : Type 0) : Type 0 where
  answered : A → Answer A
  failed : Failure → Answer A

-- A notification, with the key of its message.
pub data Notice : Type 0 where
  success warning : String → Notice
  error : String → Option String → Notice

-- The calls of the services.
pub data Sent (N : Type 0) : Type 0 where
  listed : ApiCall ThingsModelListParams → Sent N
  created : ApiCall (ThingsModelCreateInput N) → Sent N
  updated : ApiCall (ThingsModelUpdateInput N) → Sent N
  deleted : ApiCall (Unit {0}) → Sent N

pub record Editor (N : Type 0) : Type 0 where
  pub tenant_id : String
  pub products : List Product
  pub product_filter : String
  pub models : List (ThingsModel N)
  pub total : ℕ
  pub page : ℕ
  pub page_size : ℕ
  pub loading : Bool
  pub saving : Bool
  pub deleting_id : Option String
  pub form_mode : Option FormMode
  pub editing_model : Option (ThingsModel N)
  pub form : ThingsModelFormState
  pub active_definition_tab : DefinitionField
  pub property_rows : List PropertyDraftRow
  pub event_rows : List EventDraftRow
  pub service_rows : List ServiceDraftRow
  -- The number of local ids that were made, the calls and the notifications, latest first.
  pub next_id : ℕ
  pub sent : List (Sent N)
  pub notified : List Notice

abbrev pub first_product_id : List Product → String
first_product_id [] = ""
first_product_id (p ∷ ps) = p.id

-- `a || b` of texts.
abbrev pub or_text : String → String → String
or_text a b = if a == "" then b else a

-- ===== src/ThingsModel/Types.antt =====
-- The drafts and rows of web/src/pages/Admin/ThingsModelManagement.tsx.
use linkflow_v.Prelude.{String, Bool, false, List}

pub data PropertyDataType : Type 0 where
  int float double bool string : PropertyDataType

pub data PropertyAccessMode : Type 0 where
  read write readwrite : PropertyAccessMode

pub data EventLevel : Type 0 where
  info warning error : EventLevel

pub data ServiceCallType : Type 0 where
  sync async : ServiceCallType

abbrev pub data_type_text : PropertyDataType → String
data_type_text int = "int"
data_type_text float = "float"
data_type_text double = "double"
data_type_text bool = "bool"
data_type_text string = "string"

abbrev pub access_mode_text : PropertyAccessMode → String
access_mode_text read = "read"
access_mode_text write = "write"
access_mode_text readwrite = "readwrite"

abbrev pub event_level_text : EventLevel → String
event_level_text info = "info"
event_level_text warning = "warning"
event_level_text error = "error"

abbrev pub call_type_text : ServiceCallType → String
call_type_text sync = "sync"
call_type_text async = "async"

pub record ParamDraft : Type 0 where
  pub identifier : String
  pub name : String
  pub data_type : PropertyDataType
  pub required : Bool
  pub min : String
  pub max : String
  pub step : String
  pub unit : String
  pub precision : String

pub record ParamDraftRow : Type 0 where
  pub param : ParamDraft
  pub open param use *
  pub local_id : String

pub record PropertyDraft : Type 0 where
  pub param : ParamDraft
  pub open param use *
  pub access_mode : PropertyAccessMode

pub record PropertyDraftRow : Type 0 where
  pub draft : PropertyDraft
  pub open draft use *
  pub local_id : String

pub record EventDraft : Type 0 where
  pub identifier : String
  pub name : String
  pub desc : String
  pub level : EventLevel

pub record EventDraftRow : Type 0 where
  pub draft : EventDraft
  pub open draft use *
  pub local_id : String
  pub output_params : List ParamDraftRow

pub record ServiceDraft : Type 0 where
  pub identifier : String
  pub name : String
  pub desc : String
  pub call_type : ServiceCallType

pub record ServiceDraftRow : Type 0 where
  pub draft : ServiceDraft
  pub open draft use *
  pub local_id : String
  pub input_params : List ParamDraftRow
  pub output_params : List ParamDraftRow

abbrev pub empty_param_draft : ParamDraft
empty_param_draft = record {
  identifier = "";
  name = "";
  data_type = string;
  required = false;
  min = "";
  max = "";
  step = "";
  unit = "";
  precision = "";
}

abbrev pub empty_property_draft : PropertyDraft
empty_property_draft = record { param = empty_param_draft; access_mode = readwrite }

abbrev pub empty_event_draft : EventDraft
empty_event_draft = record { identifier = ""; name = ""; desc = ""; level = info }

abbrev pub empty_service_draft : ServiceDraft
empty_service_draft = record { identifier = ""; name = ""; desc = ""; call_type = sync }

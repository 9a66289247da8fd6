-- ===== src/Services/Devices/Types.antt =====
-- The types of the requests about devices: web/src/services/devices.ts. Counts are native numbers,
-- other numbers are of the abstract type.
use linkflow_v.Prelude.{String, Bool, ℕ, List, Option}
use linkflow_v.Js.Json.{Fields}

pub data DeviceStatus : Type 0 where
  active disabled : DeviceStatus

pub data DeviceConnectionStatus : Type 0 where
  online offline : DeviceConnectionStatus

pub record Device : Type 0 where
  pub id : String
  pub tenant_id : String
  pub product_id : String
  pub device_slug : String
  pub device_name : String
  pub description : String
  pub status : DeviceStatus
  pub connection_status : DeviceConnectionStatus
  pub gateway_device_id : Option String
  pub firmware_version : Option String
  pub ip_address : Option String
  pub last_seen_at : Option String
  pub created_at : String
  pub updated_at : String

pub record DeviceCreateResult : Type 0 where
  pub device : Device
  pub device_secret : Option String

pub record DeviceLatestProperties (N : Type 0) : Type 0 where
  pub id : String
  pub tenant_id : String
  pub product_id : String
  pub product_key : String
  pub device_slug : String
  pub reported : Bool
  pub properties : Fields N
  pub occurred_at : Option String
  pub received_at : Option String

pub record DevicePropertyTrendPoint (N : Type 0) : Type 0 where
  pub bucket_at : String
  pub value : N
  pub min : N
  pub max : N
  pub count : ℕ

pub record DevicePropertyTrendSeries (N : Type 0) : Type 0 where
  pub property : String
  pub points : List (DevicePropertyTrendPoint N)

pub record DevicePropertyTrend (N : Type 0) : Type 0 where
  pub device_id : String
  pub tenant_id : String
  pub product_id : String
  pub product_key : String
  pub device_slug : String
  pub properties : List String
  pub from : String
  pub to : String
  pub bucket_seconds : ℕ
  pub agg : String
  pub series : List (DevicePropertyTrendSeries N)

pub record DeviceEventEntry (N : Type 0) : Type 0 where
  pub event_id : String
  pub tenant_id : String
  pub product_id : String
  pub product_key : String
  pub device_slug : String
  pub event_name : String
  pub params : Fields N
  pub occurred_at : String
  pub received_at : String

pub data DeviceServiceAckStatus : Type 0 where
  success failed pending : DeviceServiceAckStatus

pub record DeviceServiceCallResult (N : Type 0) : Type 0 where
  pub command_id : String
  pub topic : String
  pub service_name : String
  pub input : Fields N
  pub sent_at : String

pub record DevicePropertySetResult (N : Type 0) : Type 0 where
  pub command_id : String
  pub topic : String
  pub properties : Fields N
  pub sent_at : String

pub record DevicePropertySetHistoryEntry (N : Type 0) : Type 0 where
  pub command_id : String
  pub tenant_id : String
  pub product_id : String
  pub product_key : String
  pub device_slug : String
  pub topic : String
  pub properties : Fields N
  pub occurred_at : String
  pub ack_deadline_at : String
  pub ack_status : DeviceServiceAckStatus
  pub ack_event_id : Option String
  pub ack_success : Option Bool
  pub ack_code : Option String
  pub ack_message : Option String
  pub ack_properties : Option (Fields N)
  pub ack_occurred_at : Option String
  pub ack_received_at : Option String
  pub ack_deadline_seconds : ℕ

pub record DeviceServiceCallHistoryEntry (N : Type 0) : Type 0 where
  pub command_id : String
  pub tenant_id : String
  pub product_id : String
  pub product_key : String
  pub device_slug : String
  pub service_name : String
  pub topic : String
  pub input : Fields N
  pub occurred_at : String
  pub ack_deadline_at : String
  pub ack_status : DeviceServiceAckStatus
  pub ack_event_id : Option String
  pub ack_success : Option Bool
  pub ack_code : Option String
  pub ack_message : Option String
  pub ack_output : Option (Fields N)
  pub ack_occurred_at : Option String
  pub ack_received_at : Option String
  pub ack_deadline_seconds : ℕ

pub record DeviceListParams : Type 0 where
  pub tenant_id : String
  pub product_id : Option String
  pub page : ℕ
  pub page_size : ℕ

pub record DeviceEventHistoryParams : Type 0 where
  pub event_name : Option String
  pub page : ℕ
  pub page_size : ℕ

pub record DevicePropertyTrendParams : Type 0 where
  pub properties : String
  pub from : String
  pub to : String
  pub bucket_seconds : ℕ
  pub agg : String

pub record DeviceServiceCallHistoryParams : Type 0 where
  pub service_name : Option String
  pub ack_deadline_seconds : ℕ
  pub page : ℕ
  pub page_size : ℕ

pub record DevicePropertySetHistoryParams : Type 0 where
  pub property_name : Option String
  pub ack_deadline_seconds : ℕ
  pub page : ℕ
  pub page_size : ℕ

pub record DeviceCreateInput : Type 0 where
  pub tenant_id : String
  pub product_id : String
  pub device_slug : String
  pub device_name : String
  pub description : String
  pub gateway_device_id : String

pub record DeviceUpdateInput : Type 0 where
  pub device_name : String
  pub description : String
  pub status : DeviceStatus
  pub gateway_device_id : String

pub record DeviceServiceCallInput (N : Type 0) : Type 0 where
  pub input : Fields N

pub record DevicePropertySetInput (N : Type 0) : Type 0 where
  pub properties : Fields N

pub record DeviceDeleteResult : Type 0 where
  pub deleted : Bool

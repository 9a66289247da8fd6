-- ===== src/Services/AuditLogs.antt =====
-- Requests about audit logs: web/src/services/auditLogs.ts. Counts are native numbers, other numbers are of
-- the abstract type.
use linkflow_v.Prelude.{String, ℕ}
use linkflow_v.Js.Json.{Fields}
use linkflow_v.Services.Call.{ApiCall, get, as_params}

pub data AuditResult : Type 0 where
  success failure : AuditResult

pub record AuditLog (N : Type 0) : Type 0 where
  pub id : String
  pub actor_user_id : String
  pub actor_role : String
  pub action : String
  pub resource_type : String
  pub resource_id : String
  pub result : AuditResult
  pub error_code : String
  pub method : String
  pub path : String
  pub status_code : ℕ
  pub duration_ms : ℕ
  pub ip : String
  pub user_agent : String
  pub request_id : String
  pub trace_id : String
  pub operation_id : String
  pub metadata : Fields N
  pub created_at : String

pub record AuditLogListParams : Type 0 where
  pub page : ℕ
  pub page_size : ℕ

unfoldable pub list_audit_logs : AuditLogListParams → ApiCall AuditLogListParams
list_audit_logs params = record {
  method = get;
  url = "/api/v1/audit-logs";
  payload = as_params params;
}

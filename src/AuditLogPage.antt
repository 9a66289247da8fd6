-- ===== src/AuditLogPage.antt =====
-- The page of the audit log: the effect of web/src/pages/Admin/AuditLogManagement.tsx, the only reader
-- of its list, and the text of an entry's meta data.
use linkflow_v.Prelude.{ℕ, String, Option, none, List, [], ◌∷◌, leb, if◌then◌else◌}
use linkflow_v.Js.Json.{Json, obj, Fields, end, field}
use linkflow_v.Answers.{Answer, answered, failed, Notice, error}
use linkflow_v.Services.Call.{ApiCall, PageResult}
use linkflow_v.Services.AuditLogs.{AuditLog, AuditLogListParams, list_audit_logs}
use linkflow_v.PagedList.{Query, Listing, mount, ask_for, effect_answered}
use linkflow_v.PagedList.Settles.{never}

-- The colours of a status code.
abbrev pub get_status_class_name : ℕ → String
get_status_class_name status_code =
    if leb 500 status_code
    then "bg-red-50 text-red-600 dark:bg-red-950/30 dark:text-red-300"
    else if leb 400 status_code
    then "bg-amber-50 text-amber-700 dark:bg-amber-950/40 dark:text-amber-300"
    else if leb 300 status_code
    then "bg-violet-50 text-violet-700 dark:bg-violet-950/40 dark:text-violet-300"
    else "bg-linkflow-primary-soft text-linkflow-primary"

-- `stringify` is `JSON.stringify` with an indentation of two.
abbrev pub format_metadata : {N : Type 0} → (Json N → String) → Fields N → String
format_metadata stringify end = "--"
format_metadata stringify (field key value fields) = stringify (obj (field key value fields))

pub record AuditLogPage (N : Type 0) : Type 0 where
  pub listing : Listing (AuditLog N)
  pub selected_log : Option (AuditLog N)
  pub notified : List Notice

abbrev pub list_call : Query → ApiCall AuditLogListParams
list_call q = list_audit_logs (record { page = q.page; page_size = q.page_size })

module _ {N : Type 0} where
  abbrev pub open_page : AuditLogPage N
  open_page = record {
    listing = mount never (record { scope = ""; page = 1; page_size = 10 });
    selected_log = none;
    notified = [];
  }

  -- The end of the effect's last run.
  abbrev pub logs_loaded : Answer (PageResult (AuditLog N)) → AuditLogPage N → AuditLogPage N
  logs_loaded (answered r) s = record s { listing = effect_answered never (answered r) s.listing }
  logs_loaded (failed e) s = record s {
    listing = effect_answered never (failed e) s.listing;
    notified = error "adminAuditLoadFailed" e ∷ s.notified;
  }

  -- `onPageChange` and `onPageSizeChange`.
  abbrev pub choose_page : ℕ → AuditLogPage N → AuditLogPage N
  choose_page page s = record s {
    listing = ask_for never (record (s.listing.query) { page = page }) s.listing;
  }

  abbrev pub choose_page_size : ℕ → AuditLogPage N → AuditLogPage N
  choose_page_size page_size s = record s {
    listing =
        ask_for never (record (s.listing.query) { page = 1; page_size = page_size }) s.listing;
  }

-- ===== src/ThingsModel/Rows.antt =====
-- The handlers of the rows of the editor in web/src/pages/Admin/ThingsModelManagement.tsx: changes
-- of fields, addition and removal of rows and of their parameters, and the validation before a
-- save.
pub mod Laws
use linkflow_v.Prelude.{
  change_row, remove_row, String, Bool, not, ◌&&◌, List, [], ◌∷◌, map, ◌++◌, ◌==◌, all, keep,
  if◌then◌else◌,
}
use linkflow_v.Js.Text.{trim}
use linkflow_v.ThingsModel.Types.{
  PropertyDataType, PropertyAccessMode, EventLevel, ServiceCallType, ParamDraft, ParamDraftRow,
  PropertyDraft, PropertyDraftRow, EventDraft, EventDraftRow, ServiceDraft, ServiceDraftRow,
  empty_param_draft, empty_property_draft, empty_event_draft, empty_service_draft,
}

-- A key of a draft with the value that it gets.
pub data ParamChange : Type 0 where
  identifier name min max step unit precision : String → ParamChange
  data_type : PropertyDataType → ParamChange
  required : Bool → ParamChange

pub data PropertyChange : Type 0 where
  param : ParamChange → PropertyChange
  access_mode : PropertyAccessMode → PropertyChange

pub data EventChange : Type 0 where
  identifier name desc : String → EventChange
  level : EventLevel → EventChange

pub data ServiceChange : Type 0 where
  identifier name desc : String → ServiceChange
  call_type : ServiceCallType → ServiceChange

abbrev pub set_param : ParamChange → ParamDraft → ParamDraft
set_param (ParamChange.identifier s) d = record d { identifier = s }
set_param (ParamChange.name s) d = record d { name = s }
set_param (min s) d = record d { min = s }
set_param (max s) d = record d { max = s }
set_param (step s) d = record d { step = s }
set_param (unit s) d = record d { unit = s }
set_param (precision s) d = record d { precision = s }
set_param (data_type t) d = record d { data_type = t }
set_param (required b) d = record d { required = b }

abbrev pub set_property : PropertyChange → PropertyDraftRow → PropertyDraftRow
set_property (param c) row = record row {
  draft = record (row.draft) { param = set_param c row.draft.param };
}
set_property (access_mode m) row = record row { draft = record (row.draft) { access_mode = m } }

abbrev pub set_event : EventChange → EventDraftRow → EventDraftRow
set_event (EventChange.identifier s) row = record row {
  draft = record (row.draft) { identifier = s };
}
set_event (EventChange.name s) row = record row { draft = record (row.draft) { name = s } }
set_event (EventChange.desc s) row = record row { draft = record (row.draft) { desc = s } }
set_event (level l) row = record row { draft = record (row.draft) { level = l } }

abbrev pub set_service : ServiceChange → ServiceDraftRow → ServiceDraftRow
set_service (ServiceChange.identifier s) row = record row {
  draft = record (row.draft) { identifier = s };
}
set_service (ServiceChange.name s) row = record row { draft = record (row.draft) { name = s } }
set_service (ServiceChange.desc s) row = record row { draft = record (row.draft) { desc = s } }
set_service (call_type t) row = record row { draft = record (row.draft) { call_type = t } }

unfoldable pub update_property_row :
    String → PropertyChange → List PropertyDraftRow → List PropertyDraftRow
update_property_row local_id c rows =
    change_row (λ row. row.local_id) local_id (set_property c) rows

unfoldable pub update_event_row : String → EventChange → List EventDraftRow → List EventDraftRow
update_event_row local_id c rows = change_row (λ row. row.local_id) local_id (set_event c) rows

unfoldable pub update_service_row :
    String → ServiceChange → List ServiceDraftRow → List ServiceDraftRow
update_service_row local_id c rows = change_row (λ row. row.local_id) local_id (set_service c) rows

unfoldable pub handle_remove_property : String → List PropertyDraftRow → List PropertyDraftRow
handle_remove_property local_id rows = remove_row (λ row. row.local_id) local_id rows

unfoldable pub handle_remove_event : String → List EventDraftRow → List EventDraftRow
handle_remove_event local_id rows = remove_row (λ row. row.local_id) local_id rows

unfoldable pub handle_remove_service : String → List ServiceDraftRow → List ServiceDraftRow
handle_remove_service local_id rows = remove_row (λ row. row.local_id) local_id rows

-- The parameters of one event, or one side of a service.
abbrev pub change_param : String → ParamChange → List ParamDraftRow → List ParamDraftRow
change_param local_id c params =
    change_row (λ row. row.local_id) local_id (λ row. record row { param = set_param c row.param })
      params

-- A new row: the local id is a fresh one.
abbrev pub create_param_draft_row : String → ParamDraftRow
create_param_draft_row local_id = record { param = empty_param_draft; local_id = local_id }

abbrev pub create_property_draft_row : String → PropertyDraftRow
create_property_draft_row local_id = record { draft = empty_property_draft; local_id = local_id }

abbrev pub create_event_draft_row : String → EventDraftRow
create_event_draft_row local_id = record {
  draft = empty_event_draft;
  local_id = local_id;
  output_params = [];
}

abbrev pub create_service_draft_row : String → ServiceDraftRow
create_service_draft_row local_id = record {
  draft = empty_service_draft;
  local_id = local_id;
  input_params = [];
  output_params = [];
}

-- What happens to the parameters of a row.
pub data ParamsChange : Type 0 where
  add : String → ParamsChange
  update : String → ParamChange → ParamsChange
  remove : String → ParamsChange

abbrev pub change_params : ParamsChange → List ParamDraftRow → List ParamDraftRow
change_params (add fresh_id) params = params ++ create_param_draft_row fresh_id ∷ []
change_params (update local_id c) params = change_param local_id c params
change_params (remove local_id) params = remove_row (λ row. row.local_id) local_id params

-- `addEventOutputParam`, `updateEventOutputParam` and `removeEventOutputParam`.
unfoldable pub change_event_output : String → ParamsChange → List EventDraftRow → List EventDraftRow
change_event_output event_local_id c rows =
    change_row (λ row. row.local_id) event_local_id
      (λ row. record row { output_params = change_params c row.output_params }) rows

-- The same three for the input, and for the output, of a service.
unfoldable pub change_service_input :
    String → ParamsChange → List ServiceDraftRow → List ServiceDraftRow
change_service_input service_local_id c rows =
    change_row (λ row. row.local_id) service_local_id
      (λ row. record row { input_params = change_params c row.input_params }) rows

unfoldable pub change_service_output :
    String → ParamsChange → List ServiceDraftRow → List ServiceDraftRow
change_service_output service_local_id c rows =
    change_row (λ row. row.local_id) service_local_id
      (λ row. record row { output_params = change_params c row.output_params }) rows

abbrev pub named : String → String → Bool
named key title = not (trim key == "") && not (trim title == "")

abbrev pub validate_param_rows : List ParamDraftRow → Bool
validate_param_rows params = all (λ param. named param.identifier param.name) params

unfoldable pub validate_definition_rows :
    List PropertyDraftRow → List EventDraftRow → List ServiceDraftRow → Bool
validate_definition_rows property_rows event_rows service_rows =
    all (λ row. named row.identifier row.name) property_rows
    && (all (λ row. named row.identifier row.name && validate_param_rows row.output_params)
          event_rows
        && all
            (λ row.
              named row.identifier row.name
              && (validate_param_rows row.input_params && validate_param_rows row.output_params))
            service_rows)

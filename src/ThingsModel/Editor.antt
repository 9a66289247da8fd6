-- ===== src/ThingsModel/Editor.antt =====
-- The state and the handlers of the editor in web/src/pages/Admin/ThingsModelManagement.tsx. Each
-- `set` is a change of one field; an asynchronous call has its answer as an argument.
mod State
pub use State.*
pub mod Submit
pub mod Effects
pub mod Saved
mod Examples
use linkflow_v.Prelude.{
  ℕ, ◌+◌, ◌-◌, String, Bool, true, false, ◌&&◌, Option, none, some, List, [], ◌∷◌, map, ◌++◌, ◌==◌,
  eqb, ltb, length, if◌then◌else◌,
}
use linkflow_v.Js.Json.{Fields}
use linkflow_v.Js.Number.{Numbers}
use linkflow_v.Services.Call.{ApiCall, PageResult}
use linkflow_v.Services.Products.{Product}
use linkflow_v.Services.ThingsModels.{
  ThingsModelStatus, draft, published, deprecated, ThingsModel, ThingsModelListParams,
  ThingsModelCreateInput, ThingsModelUpdateInput, list_things_models,
}
use linkflow_v.ThingsModel.Types.{PropertyDraftRow, EventDraftRow, ServiceDraftRow}
use linkflow_v.ThingsModel.Read.{
  property_rows_from_object, event_rows_from_object, service_rows_from_object,
}
use linkflow_v.ThingsModel.Rows.{
  create_property_draft_row, create_event_draft_row, create_service_draft_row,
}

-- `status === 'published' ? current : false`.
abbrev pub current_if : ThingsModelStatus → Bool → Bool
current_if published b = b
current_if draft b = false
current_if deprecated b = false

-- `a || undefined`.
abbrev pub none_if_empty : String → Option String
none_if_empty a = if a == "" then none else some a

module _ {N : Type 0} where
  unfoldable pub close_form : Editor N → Editor N
  close_form s = record s {
    form_mode = none;
    editing_model = none;
    active_definition_tab = properties;
    property_rows = [];
    event_rows = [];
    service_rows = [];
    form = empty_form;
  }

  unfoldable pub handle_tenant_change : String → Editor N → Editor N
  unfolding close_form
  handle_tenant_change next_tenant_id s =
      close_form (record s { tenant_id = next_tenant_id; product_filter = ""; page = 1 })

  unfoldable pub handle_status_change : ThingsModelStatus → Editor N → Editor N
  handle_status_change status s = record s {
    form = record (s.form) { status = status; is_current = current_if status s.form.is_current };
  }

  abbrev pub list_params : ℕ → ℕ → Editor N → ThingsModelListParams
  list_params next_page next_page_size s = record {
    tenant_id = s.tenant_id;
    product_id = none_if_empty s.product_filter;
    page = next_page;
    page_size = next_page_size;
  }

  -- The list is asked for with the given page and size.
  unfoldable pub load_models : Answer (PageResult (ThingsModel N)) → ℕ → ℕ → Editor N → Editor N
  load_models answer next_page next_page_size s =
      let sent = listed (list_things_models (list_params next_page next_page_size s)) ∷ s.sent in
      if s.tenant_id == "" then record s { models = []; total = 0 } else elim answer [
        | answered result ↦ record s {
          sent = sent;
          models = result.items;
          total = result.total;
          page = result.page;
          page_size = result.page_size;
          loading = false;
        }
        | failed e ↦ record s {
          sent = sent;
          notified = error "adminThingsModelLoadFailed" e.description ∷ s.notified;
          loading = false;
        }
      ]

module _ {N : Type 0} (fresh : ℕ → String) where
  unfoldable pub open_create_form : Editor N → Editor N
  open_create_form s = record s {
    editing_model = none;
    active_definition_tab = properties;
    property_rows = create_property_draft_row (fresh s.next_id) ∷ [];
    event_rows = create_event_draft_row (fresh (s.next_id + 1)) ∷ [];
    service_rows = create_service_draft_row (fresh (s.next_id + 2)) ∷ [];
    next_id = s.next_id + 3;
    form = record empty_form {
      product_id = or_text s.product_filter (first_product_id s.products);
    };
    form_mode = some create;
  }

  unfoldable pub handle_add_property : Editor N → Editor N
  handle_add_property s = record s {
    property_rows = s.property_rows ++ create_property_draft_row (fresh s.next_id) ∷ [];
    next_id = s.next_id + 1;
  }

  unfoldable pub handle_add_event : Editor N → Editor N
  handle_add_event s = record s {
    event_rows = s.event_rows ++ create_event_draft_row (fresh s.next_id) ∷ [];
    next_id = s.next_id + 1;
  }

  unfoldable pub handle_add_service : Editor N → Editor N
  handle_add_service s = record s {
    service_rows = s.service_rows ++ create_service_draft_row (fresh s.next_id) ∷ [];
    next_id = s.next_id + 1;
  }

-- `stringify` is `stringifyObject`, the JSON text of an object.
module _ {N : Type 0} (ops : Numbers N) (stringify : Fields N → String) (fresh : ℕ → String) where
  unfoldable pub to_form_state : ThingsModel N → ThingsModelFormState
  to_form_state model = record {
    product_id = model.product_id;
    model_version = ops.to_text model.model_version;
    model_name = model.model_name;
    description = model.description;
    status = model.status;
    is_current = model.is_current;
    properties_text = stringify model.properties;
    events_text = stringify model.events;
    services_text = stringify model.services;
  }

  unfoldable pub open_edit_form : ThingsModel N → Editor N → Editor N
  unfolding to_form_state
  open_edit_form model s =
      let (property_rows, n) = property_rows_from_object ops fresh model.properties s.next_id in
      let (event_rows, n') = event_rows_from_object ops fresh model.events n in
      let (service_rows, n'') = service_rows_from_object ops fresh model.services n' in
      record s {
        editing_model = some model;
        active_definition_tab = properties;
        property_rows = property_rows;
        event_rows = event_rows;
        service_rows = service_rows;
        next_id = n'';
        form = to_form_state model;
        form_mode = some edit;
      }

  unfoldable pub handle_apply_preset : DefinitionField → Fields N → Editor N → Editor N
  handle_apply_preset properties template s =
      let (rows, n) = property_rows_from_object ops fresh template s.next_id in
      record s { property_rows = s.property_rows ++ rows; next_id = n }
  handle_apply_preset events template s =
      let (rows, n) = event_rows_from_object ops fresh template s.next_id in
      record s { event_rows = s.event_rows ++ rows; next_id = n }
  handle_apply_preset services template s =
      let (rows, n) = service_rows_from_object ops fresh template s.next_id in
      record s { service_rows = s.service_rows ++ rows; next_id = n }

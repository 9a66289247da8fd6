-- ===== src/ThingsModel/Editor/Submit.antt =====
-- Saving and deleting a model: `handleSubmit` and `handleDelete` of
-- web/src/pages/Admin/ThingsModelManagement.tsx. The answers of the services are arguments.
use linkflow_v.Prelude.{
  ◌-◌, String, Bool, true, false, not, ◌&&◌, Option, none, some, ◌∷◌, ◌==◌, eqb, ltb, length,
  if◌then◌else◌, Attempt, ok, thrown, ◌>>=◌,
}
use linkflow_v.Js.Json.{Fields}
use linkflow_v.Js.Number.{Numbers}
use linkflow_v.Js.Text.{trim}
use linkflow_v.Services.Call.{PageResult}
use linkflow_v.Services.ThingsModels.{
  ThingsModelStatus, draft, published, deprecated, ThingsModel, ThingsModelCreateInput,
  ThingsModelUpdateInput, ThingsModelDeleteResult, create_things_model, update_things_model,
  delete_things_model,
}
use linkflow_v.ThingsModel.Build.{
  object_from_property_rows, object_from_event_rows, object_from_service_rows,
}
use linkflow_v.ThingsModel.Rows.{validate_definition_rows}
use linkflow_v.ThingsModel.Editor.{
  FormMode, create, edit, Failure, Answer, answered, failed, success, warning, error, created,
  updated, deleted, Editor, close_form, load_models,
}

abbrev pub is_published : ThingsModelStatus → Bool
is_published published = true
is_published draft = false
is_published deprecated = false

-- The three definition objects of a form.
pub record Definitions (N : Type 0) : Type 0 where
  pub properties : Fields N
  pub events : Fields N
  pub services : Fields N

abbrev pub save_failed : Option FormMode → Bool → String
save_failed mode true = "adminThingsModelJSONInvalid"
save_failed (some create) false = "adminThingsModelCreateFailed"
save_failed (some edit) false = "adminThingsModelUpdateFailed"
save_failed none false = "adminThingsModelUpdateFailed"

module _ {N : Type 0} where
  -- The `catch` of `handleSubmit`, with its `finally`.
  abbrev pub report : Failure → Editor N → Editor N
  report e s = record s {
    notified = error (save_failed s.form_mode e.is_syntax_error) e.description ∷ s.notified;
    saving = false;
  }

  abbrev pub finish : Editor N → Editor N
  finish s = record s { saving = false }

  -- The body of the update, from the form and the rows.
  abbrev pub update_input : Definitions N → Editor N → ThingsModelUpdateInput N
  update_input d s = record {
    model_name = trim s.form.model_name;
    description = trim s.form.description;
    status = s.form.status;
    is_current = is_published s.form.status && s.form.is_current;
    properties = d.properties;
    events = d.events;
    services = d.services;
  }

module _ {N : Type 0} (ops : Numbers N) where
  abbrev pub create_input : Definitions N → Editor N → ThingsModelCreateInput N
  create_input d s = record {
    tenant_id = s.tenant_id;
    product_id = s.form.product_id;
    model_version = ops.of_text s.form.model_version;
    model_name = trim s.form.model_name;
    description = trim s.form.description;
    status = s.form.status;
    is_current = is_published s.form.status && s.form.is_current;
    properties = d.properties;
    events = d.events;
    services = d.services;
  }

  unfoldable pub definitions_of : Editor N → Attempt (Definitions N)
  definitions_of s = do
    properties ← object_from_property_rows ops s.property_rows
    events ← object_from_event_rows ops s.event_rows
    services ← object_from_service_rows ops s.service_rows
    ok (record { properties = properties; events = events; services = services })

  module _ (saved : Answer (ThingsModel N)) (list : Answer (PageResult (ThingsModel N))) where
    abbrev pub submit_create : Definitions N → Editor N → Editor N
    submit_create d s =
        let s' = record s { sent = created (create_things_model (create_input d s)) ∷ s.sent } in
        elim saved [
          | failed e ↦ report e s'
          | answered model ↦ finish (
              load_models list 1 s.page_size (
                close_form (record s' {
                  notified = success "adminThingsModelCreateSuccess" ∷ s.notified;
                  page = 1;
                })))
        ]

    abbrev pub submit_update : ThingsModel N → Definitions N → Editor N → Editor N
    submit_update model d s =
        let s' = record s {
          sent = updated (update_things_model model.id (update_input d s)) ∷ s.sent;
        } in
        elim saved [
          | failed e ↦ report e s'
          | answered model ↦ finish (
              load_models list s.page s.page_size (
                close_form
                  (record s' { notified = success "adminThingsModelUpdateSuccess" ∷ s.notified })))
        ]

    -- A form that neither creates nor edits a model is closed, and the list is read again.
    abbrev pub submit_nothing : Editor N → Editor N
    submit_nothing s = finish (load_models list s.page s.page_size (close_form s))

    abbrev pub submit :
        Option FormMode → Option (ThingsModel N) → Definitions N → Editor N → Editor N
    submit (some create) model d s = submit_create d s
    submit (some edit) (some model) d s = submit_update model d s
    submit (some edit) none d s = submit_nothing s
    submit none model d s = submit_nothing s

    unfoldable pub handle_submit : Editor N → Editor N
    handle_submit s =
        if s.tenant_id == ""
        then s
        else if not (validate_definition_rows s.property_rows s.event_rows s.service_rows)
        then record s { notified = warning "adminThingsModelDefinitionRequired" ∷ s.notified }
        else elim (definitions_of s) [
          | thrown message ↦
              report (record { is_syntax_error = false; description = some message }) s
          | ok d ↦ submit s.form_mode s.editing_model d s
        ]

module _ {N : Type 0} where
  -- The page before, if the only model of a page is deleted; else the list is read again.
  abbrev pub after_delete : Answer (PageResult (ThingsModel N)) → Editor N → Editor N
  after_delete list s =
      if eqb (length s.models) 1 && ltb 1 s.page
      then record s { page = s.page - 1 }
      else load_models list s.page s.page_size s

  unfoldable pub handle_delete :
      Bool
      → Answer ThingsModelDeleteResult
      → Answer (PageResult (ThingsModel N))
      → ThingsModel N
      → Editor N
      → Editor N
  handle_delete confirmed done list model s =
      let s' = record s { sent = deleted (delete_things_model model.id) ∷ s.sent } in
      if not confirmed then s else elim done [
        | answered result ↦
            record (after_delete list
              (record s' { notified = success "adminThingsModelDeleteSuccess" ∷ s.notified })) {
                deleting_id = none;
              }
        | failed e ↦ record s' {
          notified = error "adminThingsModelDeleteFailed" e.description ∷ s.notified;
          deleting_id = none;
        }
      ]

-- ===== src/ThingsModel/Editor/Examples.antt =====
-- Runs of the saving of a model in web/src/pages/Admin/ThingsModelManagement.tsx.
use linkflow_v.Prelude.{
  String, length, true, false, ◌&&◌, none, some, List, [], ◌∷◌, ◌≡◌, ◌≢◌, refl, arith, eq_iff, All,
  all, inr, ok,
}
use linkflow_v.Js.Json.{Json, num, str, obj, Fields, end, field}
use linkflow_v.Js.Object.{get, put, assign, comes_before}
use linkflow_v.Js.Samples.{Small, zero, one, small}
use linkflow_v.Js.Text.{trim}
use linkflow_v.Services.ThingsModels.{
  draft, published, ThingsModel, update_things_model, list_things_models,
}
use linkflow_v.ThingsModel.RoundTrip.Alike.{IsSameParam}
use linkflow_v.ThingsModel.Types.{read, PropertyDraftRow}
use linkflow_v.ThingsModel.Read.{
  plain_or_empty, property_rows_from_object, event_rows_from_object, service_rows_from_object,
  param_draft_of,
}
use linkflow_v.ThingsModel.Build.{
  define_property, object_from_property_rows, object_from_event_rows, object_from_params,
  object_from_service_rows, property_definition_from_draft, param_definition_from_draft,
  param_spec_from_draft, number_or_undefined, int_or_undefined, spec_of,
}
use linkflow_v.ThingsModel.Rows.{validate_definition_rows}
use linkflow_v.ThingsModel.Rows.Laws.{IsSavedIn, object_from_property_rows-IsSavedIn}
use linkflow_v.ThingsModel.Examples.{
  small-AreNumbers, level, property_rows, event_rows, service_rows, level_property, full_event,
  fill_service, fresh, builds_property, builds_event, builds_service,
}
use linkflow_v.ThingsModel.Editor.{
  properties, Failure, answered, failed, listed, updated, Editor, empty_form, list_params,
  open_create_form, open_edit_form, load_models, close_form,
}
use linkflow_v.ThingsModel.Editor.Submit.{Definitions, is_published, definitions_of, handle_submit}
use linkflow_v.ThingsModel.Editor.Saved.{
  IsReadAs, is_sound, handle_submit-is_sound, handle_submit-failed, handle_submit-open_edit_form,
}

-- The definitions with the fields of each in alphabetical order, and one field more.
abbrev sorted_level : Fields Small
sorted_level = field "data_type" (str "int") (
    field "name" (str "Level") (
      field "required" (Json.bool true) (
        field "spec"
          (obj (field "max" (num one) (field "min" (num zero) (field "unit" (str "percent") end))))
          end)))

abbrev sorted_property : Fields Small
sorted_property =
    field "level"
      (obj (field "access_mode" (str "read") (field "added_by" (str "ann") sorted_level))) end

abbrev sorted_event : Fields Small
sorted_event =
    field "full"
      (obj (
        field "desc" (str "at the top") (
          field "level" (str "info") (
            field "name" (str "Full")
              (field "output" (obj (field "level" (obj sorted_level) end)) end)))))
      end

abbrev sorted_service : Fields Small
sorted_service =
    field "fill"
      (obj (
        field "call_type" (str "sync") (
          field "desc" (str "") (
            field "input" (obj (field "level" (obj sorted_level) end))
              (field "name" (str "Fill") (field "output" (obj end) end))))))
      end

abbrev model : ThingsModel Small
model = record {
  id = "m1";
  tenant_id = "t1";
  product_id = "p1";
  model_version = one;
  model_name = " Tank ";
  description = "";
  status = published;
  is_current = true;
  properties = sorted_property;
  events = sorted_event;
  services = sorted_service;
  published_at = none;
  created_at = "2026-01-01";
  updated_at = "2026-01-01";
}

abbrev editor : Editor Small
editor = record {
  tenant_id = "t1";
  products = [];
  product_filter = "";
  models = model ∷ [];
  total = 1;
  page = 1;
  page_size = 10;
  loading = false;
  saving = false;
  deleting_id = none;
  form_mode = none;
  editing_model = none;
  form = empty_form;
  active_definition_tab = properties;
  property_rows = [];
  event_rows = [];
  service_rows = [];
  next_id = 0;
  sent = [];
  notified = [];
}

abbrev text_of : Fields Small → String
text_of o = "{}"

abbrev refused : Failure
refused = record { is_syntax_error = false; description = some "conflict" }

tenant-ne-nil : editor.tenant_id ≢ ""
tenant-ne-nil = ground (arith, eq_iff "t1" "")

opened-valid :
    validate_definition_rows
      (open_edit_form small text_of fresh model editor).property_rows
      (open_edit_form small text_of fresh model editor).event_rows
      (open_edit_form small text_of fresh model editor).service_rows
    ≡ true
unfolding open_edit_form property_rows_from_object event_rows_from_object service_rows_from_object
    validate_definition_rows trim get param_draft_of
opened-valid = refl

abbrev sent_definitions : Definitions Small
sent_definitions = record {
  properties = level_property;
  events = full_event;
  services = fill_service;
}

-- A parameter of the model and the parameter that is sent.
abbrev level_sent : Fields Small
level_sent = field "name" (str "Level") (
    field "data_type" (str "int") (
      field "required" (Json.bool true) (
        field "spec"
          (obj (field "min" (num zero) (field "max" (num one) (field "unit" (str "percent") end))))
          end)))

level-IsSameParam : IsSameParam (obj sorted_level) (obj level_sent)
unfolding get plain_or_empty
level-IsSameParam = record {
  same_name = refl;
  same_type = refl;
  same_required = refl;
  same_min = refl;
  same_max = refl;
  same_step = refl;
  same_unit = refl;
  same_precision = refl;
}

model-IsReadAs : IsReadAs model sent_definitions
unfolding get plain_or_empty
model-IsReadAs = (
  (
    refl,
    (
      refl,
      record {
        same_name = refl;
        same_type = refl;
        same_required = refl;
        same_min = refl;
        same_max = refl;
        same_step = refl;
        same_unit = refl;
        same_precision = refl;
      },
    ),
    tt,
  ),
  (refl, (refl, refl, refl, (refl, level-IsSameParam, tt)), tt),
  (refl, (refl, refl, refl, (refl, level-IsSameParam, tt), tt), tt),
)

handle_submit-open_edit_form_example :
    (handle_submit small
      (answered model)
      (failed refused)
      (open_edit_form small text_of fresh model editor)).sent
    ≡ listed (list_things_models (list_params 1 10 editor))
      ∷ updated (
          update_things_model "m1" (record {
            model_name = trim " Tank ";
            description = trim "";
            status = published;
            is_current = is_published published && true;
            properties = level_property;
            events = full_event;
            services = fill_service;
          }))
      ∷ []
handle_submit-open_edit_form_example =
    handle_submit-open_edit_form small text_of fresh small-AreNumbers model model sent_definitions
      (failed refused) editor
      ((property_rows, builds_property), (event_rows, builds_event), (service_rows, builds_service))
      model-IsReadAs tenant-ne-nil opened-valid

abbrev creating : Editor Small
creating = open_create_form fresh editor

-- The opened model, made a draft that is still marked as current.
abbrev drafted : Editor Small
drafted =
    let opened = open_edit_form small text_of fresh model editor in
    record opened { form = record (opened.form) { status = draft } }

drafted-valid :
    validate_definition_rows drafted.property_rows drafted.event_rows drafted.service_rows ≡ true
unfolding open_edit_form property_rows_from_object event_rows_from_object service_rows_from_object
    validate_definition_rows trim get param_draft_of
drafted-valid = refl

-- Saving it sends two calls, the update and the reading of the list.
drafted-sent : length (handle_submit small (answered model) (failed refused) drafted).sent ≡ 2
unfolding handle_submit open_edit_form property_rows_from_object event_rows_from_object
    service_rows_from_object validate_definition_rows trim param_draft_of get definitions_of
    object_from_property_rows property_definition_from_draft param_definition_from_draft
    param_spec_from_draft number_or_undefined int_or_undefined object_from_event_rows
    object_from_params object_from_service_rows load_models close_form assign
drafted-sent = refl

handle_submit-is_sound_example :
    all is_sound (handle_submit small (answered model) (failed refused) drafted).sent ≡ true
unfolding open_edit_form
handle_submit-is_sound_example =
    handle_submit-is_sound small (answered model) (failed refused) drafted refl

handle_submit-failed_example :
    ((handle_submit small (failed refused) (failed refused) drafted).form_mode ≡ drafted.form_mode)
    × ((handle_submit small (failed refused) (failed refused) drafted).form ≡ drafted.form)
    × ((handle_submit small (failed refused) (failed refused) drafted).property_rows
        ≡ drafted.property_rows)
    × ((handle_submit small (failed refused) (failed refused) drafted).event_rows
        ≡ drafted.event_rows)
    × ((handle_submit small (failed refused) (failed refused) drafted).service_rows
        ≡ drafted.service_rows)
unfolding open_edit_form
handle_submit-failed_example =
    handle_submit-failed small refused (failed refused) drafted (inr (refl, model, refl))

abbrev level_only : List PropertyDraftRow
level_only = record { draft = record { param = level; access_mode = read }; local_id = "r1" } ∷ []

builds_level : object_from_property_rows small level_only ≡ ok level_property
unfolding object_from_property_rows property_definition_from_draft param_definition_from_draft
    param_spec_from_draft number_or_undefined int_or_undefined spec_of trim put assign comes_before
builds_level = refl

object_from_property_rows-IsSavedIn_example :
    All (IsSavedIn (λ row. row.identifier) (define_property small) level_property) level_only
unfolding trim
object_from_property_rows-IsSavedIn_example =
    object_from_property_rows-IsSavedIn small level_only level_property
      ((ground (arith, eq_iff "level" ""), ground (arith, eq_iff "level" "__proto__")), tt) (tt, tt)
      builds_level

-- ===== src/ThingsModel/Examples.antt =====
-- Runs of the editor of web/src/pages/Admin/ThingsModelManagement.tsx.
use linkflow_v.Prelude.{ℕ, String, true, List, [], ◌∷◌, ◌≡◌, refl, ok}
use linkflow_v.Js.Json.{bool, num, str, obj, Fields, end, field}
use linkflow_v.Js.Object.{put, assign, comes_before}
use linkflow_v.Js.Samples.{Small, nan, zero, one, small}
use linkflow_v.Js.Text.{trim}
use linkflow_v.ThingsModel.Types.{
  int, read, readwrite, info, sync, ParamDraft, ParamDraftRow, PropertyDraftRow, EventDraftRow,
  ServiceDraftRow, empty_param_draft,
}
use linkflow_v.ThingsModel.Build.{
  spec_of, number_or_undefined, int_or_undefined, param_spec_from_draft,
  param_definition_from_draft, property_definition_from_draft, object_from_params,
  object_from_property_rows, object_from_event_rows, object_from_service_rows,
}
use linkflow_v.ThingsModel.Read.{
  property_rows_from_object, event_rows_from_object, service_rows_from_object,
}
use linkflow_v.ThingsModel.RoundTrip.Spec.{AreNumbers}
use linkflow_v.ThingsModel.RoundTrip.Objects.{
  object_from_property_rows-property_rows_from_object,
  object_from_event_rows-event_rows_from_object, object_from_service_rows-service_rows_from_object,
}

small-reads : (x : Small) → small.is_finite x ≡ true → small.of_text (small.to_text x) ≡ x
small-reads nan h = cc
small-reads _ h = refl

pub small-AreNumbers : AreNumbers small
unfolding trim
small-AreNumbers = record {
  reads = small-reads;
  trimmed = elim [ nan ↦ refl | zero ↦ refl | one ↦ refl ];
  nonempty = elim [ nan ↦ refl | zero ↦ refl | one ↦ refl ];
  finite = λ x h. h;
}

abbrev pub level : ParamDraft
level = record empty_param_draft {
  identifier = " level ";
  name = "Level ";
  data_type = int;
  required = true;
  min = "0";
  max = " 1";
  unit = "percent";
}

abbrev pub level_row : ParamDraftRow
level_row = record { param = level; local_id = "r1" }

abbrev pub property_rows : List PropertyDraftRow
property_rows =
    record { draft = record { param = level; access_mode = read }; local_id = "r1" }
    ∷ record {
      draft = record { param = empty_param_draft; access_mode = readwrite };
      local_id = "r2";
    }
    ∷ []

abbrev level_spec : Fields Small
level_spec = field "min" (num zero) (field "max" (num one) (field "unit" (str "percent") end))

abbrev level_definition : Fields Small
level_definition = field "name" (str "Level") (
    field "data_type" (str "int")
      (field "required" (bool true) (field "spec" (obj level_spec) end)))

abbrev pub level_property : Fields Small
level_property =
    field "level"
      (obj (
        field "name" (str "Level") (
          field "data_type" (str "int") (
            field "required" (bool true)
              (field "spec" (obj level_spec) (field "access_mode" (str "read") end))))))
      end

pub builds_property : object_from_property_rows small property_rows ≡ ok level_property
unfolding object_from_property_rows property_definition_from_draft param_definition_from_draft
    param_spec_from_draft number_or_undefined int_or_undefined spec_of trim put assign comes_before
builds_property = refl

abbrev pub fresh : ℕ → String
fresh n = "x"

object_from_property_rows-property_rows_from_object_example :
    object_from_property_rows small (property_rows_from_object small fresh level_property 0).0
    ≡ ok level_property
object_from_property_rows-property_rows_from_object_example =
    object_from_property_rows-property_rows_from_object small fresh small-AreNumbers property_rows
      level_property 0 builds_property

abbrev pub event_rows : List EventDraftRow
event_rows =
    record {
      draft = record { identifier = "full"; name = "Full"; desc = " at the top "; level = info };
      local_id = "e1";
      output_params = level_row ∷ [];
    }
    ∷ []

abbrev pub full_event : Fields Small
full_event =
    field "full"
      (obj (
        field "name" (str "Full") (
          field "level" (str "info") (
            field "desc" (str "at the top")
              (field "output" (obj (field "level" (obj level_definition) end)) end)))))
      end

pub builds_event : object_from_event_rows small event_rows ≡ ok full_event
unfolding object_from_event_rows object_from_params param_definition_from_draft
    param_spec_from_draft number_or_undefined int_or_undefined spec_of trim put assign comes_before
builds_event = refl

object_from_event_rows-event_rows_from_object_example :
    object_from_event_rows small (event_rows_from_object small fresh full_event 0).0 ≡ ok full_event
object_from_event_rows-event_rows_from_object_example =
    object_from_event_rows-event_rows_from_object small fresh small-AreNumbers event_rows full_event
      0 builds_event

abbrev pub service_rows : List ServiceDraftRow
service_rows =
    record {
      draft = record { identifier = "fill"; name = "Fill"; desc = ""; call_type = sync };
      local_id = "s1";
      input_params = level_row ∷ [];
      output_params = [];
    }
    ∷ []

abbrev pub fill_service : Fields Small
fill_service =
    field "fill"
      (obj (
        field "name" (str "Fill") (
          field "call_type" (str "sync") (
            field "desc" (str "") (
              field "input" (obj (field "level" (obj level_definition) end))
                (field "output" (obj end) end))))))
      end

pub builds_service : object_from_service_rows small service_rows ≡ ok fill_service
unfolding object_from_service_rows object_from_params param_definition_from_draft
    param_spec_from_draft number_or_undefined int_or_undefined spec_of trim put assign comes_before
builds_service = refl

object_from_service_rows-service_rows_from_object_example :
    object_from_service_rows small (service_rows_from_object small fresh fill_service 0).0
    ≡ ok fill_service
object_from_service_rows-service_rows_from_object_example =
    object_from_service_rows-service_rows_from_object small fresh small-AreNumbers service_rows
      fill_service 0 builds_service

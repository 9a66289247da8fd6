-- ===== src/ThingsModel/RoundTrip/Objects.antt =====
-- The three definition objects of a model, read into rows and built again.
use linkflow_v.Prelude.{ℕ, String, List, some, ◌≡◌, refl, ok, >>=-eq-ok}
use linkflow_v.Js.Json.{Json, str, obj, Fields, end, field}
use linkflow_v.Js.Object.{get}
use linkflow_v.Js.Number.{Numbers}
use linkflow_v.Js.Text.{trim, trim_idem}
use linkflow_v.ThingsModel.Types.{
  EventLevel, info, ServiceCallType, sync, event_level_text, call_type_text, ParamDraftRow,
  PropertyDraftRow, EventDraftRow, ServiceDraftRow,
}
use linkflow_v.ThingsModel.Build.{
  define_param, define_property, object_from_property_rows, object_from_params, define_event,
  object_from_event_rows, define_service, object_from_service_rows,
}
use linkflow_v.ThingsModel.Read.{
  param_draft_of, plain_or_empty, string_from_unknown, event_level_from_unknown,
  call_type_from_unknown, draft_from_param_definition, rows_of, property_row_of,
  property_rows_from_object, event_row_of, event_rows_from_object, service_row_of,
  service_rows_from_object,
}
use linkflow_v.ThingsModel.RoundTrip.Rows.{reduce_rows-rows_of}
use linkflow_v.ThingsModel.RoundTrip.Spec.{AreNumbers}
use linkflow_v.ThingsModel.RoundTrip.Params.{define_param_stable, define_property_stable}

event_level_from_unknown-text :
    (N : Type 0) (t : EventLevel)
    → event_level_from_unknown {N = N} (some (str (event_level_text t))) ≡ t
unfolding event_level_from_unknown
event_level_from_unknown-text N info = refl
event_level_from_unknown-text N _ = refl

call_type_from_unknown-text :
    (N : Type 0) (t : ServiceCallType)
    → call_type_from_unknown {N = N} (some (str (call_type_text t))) ≡ t
unfolding call_type_from_unknown
call_type_from_unknown-text N sync = refl
call_type_from_unknown-text N _ = refl

module _ {N : Type 0} (ops : Numbers N) (fresh : ℕ → String) (laws : AreNumbers ops) where
  -- Where the numbers print and parse back as `AreNumbers` says, the property definitions that rows
  -- build come back, in order and value, when they are read into rows and built again: opening a
  -- model and saving it unchanged sends the same properties.
  pub object_from_property_rows-property_rows_from_object :
      (rows : List PropertyDraftRow) (o : Fields N) (n : ℕ)
      → object_from_property_rows ops rows ≡ ok o
      → object_from_property_rows ops (property_rows_from_object ops fresh o n).0 ≡ ok o
  unfolding object_from_property_rows property_rows_from_object param_draft_of
  object_from_property_rows-property_rows_from_object rows o n e =
      reduce_rows-rows_of (λ row. row.identifier) (define_property ops) (property_row_of ops fresh)
        (λ row v h. define_property_stable ops laws fresh row v h) (λ k v m. refl) rows o n e

  object_from_params_again :
      (rows : List ParamDraftRow) (o : Fields N) (n : ℕ)
      → object_from_params ops rows ≡ ok o
      → object_from_params ops (rows_of (draft_from_param_definition ops fresh) o n).0 ≡ ok o
  unfolding object_from_params draft_from_param_definition param_draft_of
  object_from_params_again rows o n e =
      reduce_rows-rows_of (λ row. row.identifier) (define_param ops)
        (draft_from_param_definition ops fresh)
        (λ row v h. define_param_stable ops laws fresh row v h) (λ k v m. refl) rows o n e

  define_event_stable :
      (row : EventDraftRow) (v : Json N)
      → define_event ops row ≡ ok v
      → (k : String) (n : ℕ) → define_event ops (event_row_of ops fresh k v n).0 ≡ ok v
  unfolding define_event event_row_of plain_or_empty get string_from_unknown
  define_event_stable row v h k n =
      let (output, h1, h2) = >>=-eq-ok (object_from_params ops row.output_params) _ h in
      let same : v
          ≡ obj (
              field "name" (str (trim row.name)) (
                field "level" (str (event_level_text row.level))
                  (field "desc" (str (trim row.desc)) (field "output" (obj output) end)))) =
        cc in
      rw same (
        rw
          (
            object_from_params_again row.output_params output n h1,
            trim_idem row.name,
            trim_idem row.desc,
            event_level_from_unknown-text N row.level,
          )
          refl)

  -- Where the numbers print and parse back as `AreNumbers` says, the event definitions that rows
  -- build come back, with their output parameters, when they are read into rows and built again.
  pub object_from_event_rows-event_rows_from_object :
      (rows : List EventDraftRow) (o : Fields N) (n : ℕ)
      → object_from_event_rows ops rows ≡ ok o
      → object_from_event_rows ops (event_rows_from_object ops fresh o n).0 ≡ ok o
  unfolding object_from_event_rows event_rows_from_object
  object_from_event_rows-event_rows_from_object rows o n e =
      reduce_rows-rows_of (λ row. row.identifier) (define_event ops) (event_row_of ops fresh)
        define_event_stable (λ k v m. refl) rows o n e

  define_service_stable :
      (row : ServiceDraftRow) (v : Json N)
      → define_service ops row ≡ ok v
      → (k : String) (n : ℕ) → define_service ops (service_row_of ops fresh k v n).0 ≡ ok v
  unfolding define_service service_row_of plain_or_empty get string_from_unknown
  define_service_stable row v h k n =
      let (input, h1, h2) = >>=-eq-ok (object_from_params ops row.input_params) _ h in
      let (output, h3, h4) = >>=-eq-ok (object_from_params ops row.output_params) _ h2 in
      let same : v
          ≡ obj (
              field "name" (str (trim row.name)) (
                field "call_type" (str (call_type_text row.call_type)) (
                  field "desc" (str (trim row.desc))
                    (field "input" (obj input) (field "output" (obj output) end))))) =
        cc in
      rw same (
        rw
          (
            object_from_params_again row.input_params input n h1,
            object_from_params_again row.output_params output _ h3,
            trim_idem row.name,
            trim_idem row.desc,
            call_type_from_unknown-text N row.call_type,
          )
          refl)

  -- Where the numbers print and parse back as `AreNumbers` says, the service definitions that rows
  -- build come back, with their parameters, when they are read into rows and built again.
  pub object_from_service_rows-service_rows_from_object :
      (rows : List ServiceDraftRow) (o : Fields N) (n : ℕ)
      → object_from_service_rows ops rows ≡ ok o
      → object_from_service_rows ops (service_rows_from_object ops fresh o n).0 ≡ ok o
  unfolding object_from_service_rows service_rows_from_object
  object_from_service_rows-service_rows_from_object rows o n e =
      reduce_rows-rows_of (λ row. row.identifier) (define_service ops) (service_row_of ops fresh)
        define_service_stable (λ k v m. refl) rows o n e

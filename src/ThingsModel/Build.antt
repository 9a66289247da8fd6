-- ===== src/ThingsModel/Build.antt =====
-- From rows to JSON objects in web/src/pages/Admin/ThingsModelManagement.tsx. Where the source
-- throws, the result is the message of the error.
use linkflow_v.Prelude.{
  String, not, ◌||◌, Option, none, some, List, [], ◌∷◌, ◌==◌, Attempt, ok, thrown, ◌>>=◌,
  if◌then◌else◌,
}
use linkflow_v.Js.Json.{Json, bool, num, str, obj, Fields, end, field}
use linkflow_v.Js.Object.{put, assign, has_keys}
use linkflow_v.Js.Number.{Numbers}
use linkflow_v.Js.Text.{trim}
use linkflow_v.ThingsModel.Types.{
  data_type_text, access_mode_text, event_level_text, call_type_text, ParamDraft, ParamDraftRow,
  PropertyDraft, PropertyDraftRow, EventDraftRow, ServiceDraftRow,
}

module _ {N : Type 0} where
  -- `if (value !== undefined) o[k] = value`.
  abbrev pub set_some : String → Option (Json N) → Fields N → Fields N
  set_some k none o = o
  set_some k (some v) o = put k v o

  abbrev pub num_json : Option N → Option (Json N)
  num_json none = none
  num_json (some x) = some (num x)

  abbrev pub unit_json : String → Option (Json N)
  unit_json unit = if unit == "" then none else some (str unit)

  -- The five `if`s of `paramSpecFromDraft`.
  unfoldable pub spec_of : Option N → Option N → Option N → String → Option N → Fields N
  spec_of min max step unit precision = set_some "precision" (num_json precision) (
      set_some "unit" (unit_json unit) (
        set_some "step" (num_json step)
          (set_some "max" (num_json max) (set_some "min" (num_json min) end))))

  abbrev pub with_spec : Fields N → Fields N → Fields N
  with_spec spec definition = if has_keys spec then put "spec" (obj spec) definition else definition

  abbrev pub definition_with : ParamDraft → Fields N → Fields N
  definition_with draft spec = with_spec spec (
      field "name" (str (trim draft.name)) (
        field "data_type" (str (data_type_text draft.data_type))
          (field "required" (bool draft.required) end)))

  -- A reduction of rows to an object: a row with no identifier is passed over.
  unfoldable pub reduce_rows :
      {R : Type 0} → (R → String) → (R → Attempt (Json N)) → List R → Fields N → Attempt (Fields N)
  reduce_rows identifier define [] result = ok result
  reduce_rows identifier define (row ∷ rows) result =
      let key = trim (identifier row) in
      let skip = reduce_rows identifier define rows result in
      let next = define row >>= λ v. reduce_rows identifier define rows (assign key v result) in
      if key == "" then skip else next

module _ {N : Type 0} (ops : Numbers N) where
  unfoldable pub number_or_undefined : String → Attempt (Option N)
  number_or_undefined value =
      let trimmed = trim value in
      let next_value = ops.of_text trimmed in
      if trimmed == ""
      then ok none
      else if not (ops.is_finite next_value)
      then thrown "numeric spec fields must be valid numbers"
      else ok (some next_value)

  unfoldable pub int_or_undefined : String → Attempt (Option N)
  int_or_undefined value =
      let trimmed = trim value in
      let next_value = ops.of_text trimmed in
      if trimmed == ""
      then ok none
      else if not (ops.is_integer next_value) || ops.is_negative next_value
      then thrown "precision must be a non-negative integer"
      else ok (some next_value)

  unfoldable pub param_spec_from_draft : ParamDraft → Attempt (Fields N)
  param_spec_from_draft draft = do
    min ← number_or_undefined draft.min
    max ← number_or_undefined draft.max
    step ← number_or_undefined draft.step
    precision ← int_or_undefined draft.precision
    ok (spec_of min max step (trim draft.unit) precision)

  unfoldable pub param_definition_from_draft : ParamDraft → Attempt (Fields N)
  param_definition_from_draft draft = do
    spec ← param_spec_from_draft draft
    ok (definition_with draft spec)

  unfoldable pub property_definition_from_draft : PropertyDraft → Attempt (Fields N)
  property_definition_from_draft draft = do
    definition ← param_definition_from_draft draft.param
    ok (put "access_mode" (str (access_mode_text draft.access_mode)) definition)

  unfoldable pub define_property : PropertyDraftRow → Attempt (Json N)
  define_property row = do
    definition ← property_definition_from_draft row.draft
    ok (obj definition)

  unfoldable pub object_from_property_rows : List PropertyDraftRow → Attempt (Fields N)
  unfolding reduce_rows define_property
  object_from_property_rows rows = reduce_rows (λ row. row.identifier) define_property rows end

  unfoldable pub define_param : ParamDraftRow → Attempt (Json N)
  define_param row = do definition ← param_definition_from_draft row.param; ok (obj definition)

  -- The inner reduction over the parameters of an event or a service.
  unfoldable pub object_from_params : List ParamDraftRow → Attempt (Fields N)
  unfolding reduce_rows define_param
  object_from_params params = reduce_rows (λ row. row.identifier) define_param params end

  unfoldable pub define_event : EventDraftRow → Attempt (Json N)
  define_event row = do
    output ← object_from_params row.output_params
    ok (
        obj (
          field "name" (str (trim row.name)) (
            field "level" (str (event_level_text row.level))
              (field "desc" (str (trim row.desc)) (field "output" (obj output) end)))))

  unfoldable pub object_from_event_rows : List EventDraftRow → Attempt (Fields N)
  unfolding reduce_rows define_event
  object_from_event_rows rows = reduce_rows (λ row. row.identifier) define_event rows end

  unfoldable pub define_service : ServiceDraftRow → Attempt (Json N)
  define_service row = do
    input ← object_from_params row.input_params
    output ← object_from_params row.output_params
    ok (
        obj (
          field "name" (str (trim row.name)) (
            field "call_type" (str (call_type_text row.call_type)) (
              field "desc" (str (trim row.desc))
                (field "input" (obj input) (field "output" (obj output) end))))))

  unfoldable pub object_from_service_rows : List ServiceDraftRow → Attempt (Fields N)
  unfolding reduce_rows define_service
  object_from_service_rows rows = reduce_rows (λ row. row.identifier) define_service rows end

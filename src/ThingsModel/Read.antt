-- ===== src/ThingsModel/Read.antt =====
-- From JSON objects to rows in web/src/pages/Admin/ThingsModelManagement.tsx. `fresh n` is the n-th
-- identifier that `createLocalId` gives; functions that make rows count the ones used.
use Prim.Native.String
use linkflow_v.Prelude.{
  ℕ, suc, String, Bool, false, Option, none, some, List, [], ◌∷◌, ◌==◌, if◌then◌else◌,
}
use linkflow_v.Js.Json.{Json, null, bool, num, str, arr, obj, Items, nil, cons, Fields, end, field}
use linkflow_v.Js.Object.{get}
use linkflow_v.Js.Number.{Numbers}
use linkflow_v.ThingsModel.Types.{
  PropertyDataType, int, float, double, string, PropertyAccessMode, read, write, readwrite,
  EventLevel, info, warning, error, ServiceCallType, sync, async, ParamDraft, ParamDraftRow,
  PropertyDraftRow, EventDraftRow, ServiceDraftRow,
}

module _ {N : Type 0} where
  -- `isPlainObject(value) ? value : {}`.
  unfoldable pub plain_or_empty : Option (Json N) → Fields N
  plain_or_empty (some (obj o)) = o
  plain_or_empty value = end

  unfoldable pub string_from_unknown : Option (Json N) → String
  string_from_unknown (some (str s)) = s
  string_from_unknown value = ""

  unfoldable pub bool_from_unknown : Option (Json N) → Bool
  bool_from_unknown (some (bool b)) = b
  bool_from_unknown value = false

  unfoldable pub data_type_from_unknown : Option (Json N) → PropertyDataType
  data_type_from_unknown (some (str s)) =
      if s == "int"
      then int
      else if s == "float"
      then float
      else if s == "double"
      then double
      else if s == "bool"
      then PropertyDataType.bool
      else string
  data_type_from_unknown value = string

  unfoldable pub access_mode_from_unknown : Option (Json N) → PropertyAccessMode
  access_mode_from_unknown (some (str s)) =
      if s == "read" then read else if s == "write" then write else readwrite
  access_mode_from_unknown value = readwrite

  unfoldable pub event_level_from_unknown : Option (Json N) → EventLevel
  event_level_from_unknown (some (str s)) =
      if s == "warning" then warning else if s == "error" then error else info
  event_level_from_unknown value = info

  unfoldable pub call_type_from_unknown : Option (Json N) → ServiceCallType
  call_type_from_unknown (some (str s)) = if s == "async" then async else sync
  call_type_from_unknown value = sync

-- `String(value)` of a JSON value. An array is joined by commas, with null as the empty text. An
-- object whose own `toString` is not a function, where `String` throws, is not told apart.
unfoldable mutual
  pub to_text : {N : Type 0} → Numbers N → Json N → String
  to_text ops null = "null"
  to_text ops (bool b) = if b then "true" else "false"
  to_text ops (num x) = ops.to_text x
  to_text ops (str s) = s
  to_text ops (arr xs) = join_text ops xs
  to_text ops (obj o) = "[object Object]"

  pub join_text : {N : Type 0} → Numbers N → Items N → String
  join_text ops nil = ""
  join_text ops (cons x nil) = element_text ops x
  join_text ops (cons x (cons y ys)) =
      String.◌++◌ (element_text ops x) (String.◌++◌ "," (join_text ops (cons y ys)))

  pub element_text : {N : Type 0} → Numbers N → Json N → String
  element_text ops null = ""
  element_text ops (bool b) = if b then "true" else "false"
  element_text ops (num x) = ops.to_text x
  element_text ops (str s) = s
  element_text ops (arr xs) = join_text ops xs
  element_text ops (obj o) = "[object Object]"

module _ {N : Type 0} (ops : Numbers N) where
  -- `value === undefined ? '' : String(value)`.
  unfoldable pub text_or_empty : Option (Json N) → String
  unfolding to_text
  text_or_empty none = ""
  text_or_empty (some v) = to_text ops v

  unfoldable pub param_draft_of : String → Option (Json N) → ParamDraft
  unfolding plain_or_empty string_from_unknown bool_from_unknown data_type_from_unknown
      text_or_empty
  param_draft_of identifier definition =
      let body = plain_or_empty definition in
      let spec = plain_or_empty (get "spec" body) in
      record {
        identifier = identifier;
        name = string_from_unknown (get "name" body);
        data_type = data_type_from_unknown (get "data_type" body);
        required = bool_from_unknown (get "required" body);
        min = text_or_empty (get "min" spec);
        max = text_or_empty (get "max" spec);
        step = text_or_empty (get "step" spec);
        unit = string_from_unknown (get "unit" spec);
        precision = text_or_empty (get "precision" spec);
      }

module _ {N : Type 0} where
  -- `Object.entries(value).map`, with a count of the identifiers used.
  unfoldable pub rows_of : {R : Type 0} → (String → Json N → ℕ → R × ℕ) → Fields N → ℕ → List R × ℕ
  rows_of make end n = ([], n)
  rows_of make (field k v o) n =
      let (row, n') = make k v n in let (rows, n'') = rows_of make o n' in (row ∷ rows, n'')

module _ {N : Type 0} (ops : Numbers N) (fresh : ℕ → String) where
  -- The draft takes one new identifier.
  unfoldable pub draft_from_param_definition : String → Json N → ℕ → ParamDraftRow × ℕ
  draft_from_param_definition identifier definition n = (
    record { param = param_draft_of ops identifier (some definition); local_id = fresh n },
    suc n,
  )

  unfoldable pub property_row_of : String → Json N → ℕ → PropertyDraftRow × ℕ
  unfolding draft_from_param_definition
  property_row_of identifier definition n =
      let (param, n') = draft_from_param_definition identifier definition n in
      (
        record {
          draft = record {
            param = param.param;
            access_mode =
                access_mode_from_unknown (get "access_mode" (plain_or_empty (some definition)));
          };
          local_id = param.local_id;
        },
        n',
      )

  unfoldable pub property_rows_from_object : Fields N → ℕ → List PropertyDraftRow × ℕ
  unfolding rows_of property_row_of
  property_rows_from_object value n = rows_of property_row_of value n

  unfoldable pub event_row_of : String → Json N → ℕ → EventDraftRow × ℕ
  unfolding rows_of draft_from_param_definition
  event_row_of identifier definition n =
      let body = plain_or_empty (some definition) in
      let output = plain_or_empty (get "output" body) in
      let (output_params, n') = rows_of draft_from_param_definition output n in
      (
        record {
          draft = record {
            identifier = identifier;
            name = string_from_unknown (get "name" body);
            desc = string_from_unknown (get "desc" body);
            level = event_level_from_unknown (get "level" body);
          };
          local_id = fresh n';
          output_params = output_params;
        },
        suc n',
      )

  unfoldable pub event_rows_from_object : Fields N → ℕ → List EventDraftRow × ℕ
  unfolding rows_of event_row_of
  event_rows_from_object value n = rows_of event_row_of value n

  unfoldable pub service_row_of : String → Json N → ℕ → ServiceDraftRow × ℕ
  unfolding rows_of draft_from_param_definition
  service_row_of identifier definition n =
      let body = plain_or_empty (some definition) in
      let input = plain_or_empty (get "input" body) in
      let output = plain_or_empty (get "output" body) in
      let (input_params, n') = rows_of draft_from_param_definition input n in
      let (output_params, n'') = rows_of draft_from_param_definition output n' in
      (
        record {
          draft = record {
            identifier = identifier;
            name = string_from_unknown (get "name" body);
            desc = string_from_unknown (get "desc" body);
            call_type = call_type_from_unknown (get "call_type" body);
          };
          local_id = fresh n'';
          input_params = input_params;
          output_params = output_params;
        },
        suc n'',
      )

  unfoldable pub service_rows_from_object : Fields N → ℕ → List ServiceDraftRow × ℕ
  unfolding rows_of service_row_of
  service_rows_from_object value n = rows_of service_row_of value n

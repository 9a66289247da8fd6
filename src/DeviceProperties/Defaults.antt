-- ===== src/DeviceProperties/Defaults.antt =====
-- A service that is chosen and called at once: its input has the defaults.
use linkflow_v.Prelude.{
  String, true, false, some, List, [], ◌∷◌, map, keep, ◌≡◌, ◌≢◌, refl, All, Attempt, ok,
}
use linkflow_v.Js.Json.{Json, null, num, str, Fields, entries}
use linkflow_v.Js.Object.{get}
use linkflow_v.Js.Number.{Numbers}
use linkflow_v.Js.Text.{trim}
use linkflow_v.ServiceInput.{
  ServiceInputValueType, int, float, double, string, json, ServiceInputParamDraft, value_of,
  service_input_params_to_record,
}
use linkflow_v.ServiceInput.Laws.{HaveDistinctNames, IsSent, service_input_params_to_record-IsSent}
use linkflow_v.ServiceInput.Total.{IsReadable, service_input_params_to_record-ok}
use linkflow_v.DeviceProperties.Inputs.{
  service_input_definition, service_input_value_type, default_service_input_value, is_required,
  default_param, default_service_input_params,
}

module _ {N : Type 0} (ops : Numbers N) (parse : String → Attempt (Json N))
    (reads_null : parse "null" ≡ ok null) (zero_integer : ops.is_integer (ops.of_text "0") ≡ true)
    (zero_finite : ops.is_finite (ops.of_text "0") ≡ true) where
  abbrev pub default_json : ServiceInputValueType → Json N
  default_json int = num (ops.of_text "0")
  default_json float = num (ops.of_text "0")
  default_json double = num (ops.of_text "0")
  default_json ServiceInputValueType.bool = Json.bool false
  default_json string = str ""
  default_json json = null

  value_of-default_service_input_value :
      (name : String) (t : ServiceInputValueType)
      → value_of ops parse name t (default_service_input_value t) ≡ ok (default_json t)
  unfolding value_of
  value_of-default_service_input_value name int = rw zero_integer refl
  value_of-default_service_input_value name float = rw zero_finite refl
  value_of-default_service_input_value name double = rw zero_finite refl
  value_of-default_service_input_value name ServiceInputValueType.bool = refl
  value_of-default_service_input_value name string = refl
  value_of-default_service_input_value name json = reads_null

  abbrev pub IsNamed : ServiceInputParamDraft → Type 0
  IsNamed param = (trim param.name ≢ "") × (trim param.name ≢ "__proto__")

  -- A required field has the default of its type in an input.
  abbrev pub HasDefault : Fields N → String × Json N → Type 0
  HasDefault o e = get (trim e.0) o ≡ some (default_json (service_input_value_type (some e.1)))

  module _ (new_id : String → String) where
    defaults-IsReadable :
        (es : List (String × Json N))
        → All IsNamed (map (default_param new_id) es)
        → All (IsReadable ops parse) (map (default_param new_id) es)
    defaults-IsReadable [] h = tt
    defaults-IsReadable (e ∷ es) ((named, np), h) = (
      (
        named,
        default_json (service_input_value_type (some e.1)),
        value_of-default_service_input_value (trim e.0) (service_input_value_type (some e.1)),
      ),
      defaults-IsReadable es h,
    )

    proper_names :
        (es : List (String × Json N))
        → All IsNamed (map (default_param new_id) es)
        → All (λ param. trim param.name ≢ "__proto__") (map (default_param new_id) es)
    proper_names [] h = tt
    proper_names (e ∷ es) ((named, np), h) = (np, proper_names es h)

    defaults-HasDefault :
        (es : List (String × Json N)) (o : Fields N)
        → All (IsSent ops parse o) (map (default_param new_id) es)
        → All (HasDefault o) es
    defaults-HasDefault [] o h = tt
    defaults-HasDefault (e ∷ es) o ((named, v, made, sent), h) =
        let made' =
          value_of-default_service_input_value (trim e.0) (service_input_value_type (some e.1)) in
        let same : v ≡ default_json (service_input_value_type (some e.1)) = cc in
        (rw (sent, same) refl, defaults-HasDefault es o h)

    -- The form that the choice of a service gives is turned into an input, never into an error, and
    -- the input has for each required field of the definition the default of its type under its
    -- trimmed name: 0, false, the empty text or null. It is assumed that the trimmed names of the required
    -- fields are distinct, not empty and not `__proto__`, that `0` reads as a finite integer and
    -- that `JSON.parse` reads `null`.
    pub default_service_input_params-HasDefault :
        (definition : Json N)
        → All IsNamed (default_service_input_params new_id (some definition))
        → HaveDistinctNames (default_service_input_params new_id (some definition))
        → (o : Fields N) × (service_input_params_to_record ops parse
              (default_service_input_params new_id (some definition))
            ≡ ok o)
          × All
              (HasDefault o)
              (keep (λ e. is_required e.1) (entries (service_input_definition (some definition))))
    unfolding default_service_input_params
    default_service_input_params-HasDefault definition named distinct =
        let fields : List (String × Json N) =
          keep (λ e. is_required e.1) (entries (service_input_definition (some definition))) in
        let (o, made) =
          service_input_params_to_record-ok ops parse (map (default_param new_id) fields)
            (defaults-IsReadable fields named) distinct in
        let (sent, d) =
          service_input_params_to_record-IsSent ops parse (map (default_param new_id) fields) o
            (proper_names fields named) made in
        (o, made, defaults-HasDefault fields o sent)

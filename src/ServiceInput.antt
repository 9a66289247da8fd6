-- ===== src/ServiceInput.antt =====
-- The input of a service call from the form of
-- web/src/pages/Admin/DevicePropertyManagement.tsx.
pub mod Laws
pub mod Total
mod Examples
use Prim.Native.String
use linkflow_v.Prelude.{
  String, Bool, true, false, not, Option, none, some, List, [], ◌∷◌, ◌==◌, any, Attempt, ok, thrown,
  ◌>>=◌, if◌then◌else◌,
}
use linkflow_v.Js.Json.{Json, num, str, Fields, end}
use linkflow_v.Js.Object.{assign}
use linkflow_v.Js.Number.{Numbers}
use linkflow_v.Js.Text.{trim}

pub data ServiceInputValueType : Type 0 where
  int float double bool string json : ServiceInputValueType

pub record ServiceInputParamDraft : Type 0 where
  pub id : String
  pub name : String
  pub value : String
  pub value_type : ServiceInputValueType

infixr 65 ◌⧺◌
abbrev ◌⧺◌ : String → String → String
a ⧺ b = String.◌++◌ a b

abbrev pub is_seen : String → List String → Bool
is_seen name seen = any (λ s. s == name) seen

-- `parse` is `JSON.parse`, with the message of the error where it throws.
module _ {N : Type 0} (ops : Numbers N) (parse : String → Attempt (Json N)) where
  -- The `switch` over the type of a parameter.
  unfoldable pub value_of : String → ServiceInputValueType → String → Attempt (Json N)
  value_of name int value =
      let number = ops.of_text value in
      if not (ops.is_integer number) then thrown (name ⧺ " must be an integer") else ok (num number)
  value_of name float value =
      let number = ops.of_text value in
      if not (ops.is_finite number) then thrown (name ⧺ " must be a number") else ok (num number)
  value_of name double value =
      let number = ops.of_text value in
      if not (ops.is_finite number) then thrown (name ⧺ " must be a number") else ok (num number)
  value_of name bool value = ok (Json.bool (value == "true"))
  value_of name json value = parse (if value == "" then "null" else value)
  value_of name string value = ok (str value)

  -- The loop, with the record and the names so far.
  unfoldable pub add_params :
      List ServiceInputParamDraft → Fields N → List String → Attempt (Fields N)
  add_params [] values seen = ok values
  add_params (param ∷ params) values seen =
      let name = trim param.name in
      let next = value_of name param.value_type param.value >>= λ value.
      add_params params (assign name value values) (name ∷ seen) in
      if name == ""
      then thrown "Service input parameter name is required"
      else if is_seen name seen
      then thrown ("Duplicate service input parameter: " ⧺ name)
      else next

  unfoldable pub service_input_params_to_record : List ServiceInputParamDraft → Attempt (Fields N)
  unfolding add_params
  service_input_params_to_record params = add_params params end []

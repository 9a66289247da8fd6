-- ===== src/ServiceInput/Examples.antt =====
-- Runs of the input form of web/src/pages/Admin/DevicePropertyManagement.tsx.
use linkflow_v.Prelude.{
  String, true, List, [], ◌∷◌, ◌≡◌, refl, arith, eq_iff, All, Attempt, ok, thrown,
}
use linkflow_v.Js.Json.{Json, null, num, Fields, end, field}
use linkflow_v.Js.Object.{put, assign, comes_before}
use linkflow_v.Js.Samples.{Small, one, small}
use linkflow_v.Js.Text.{trim}
use linkflow_v.ServiceInput.{
  ServiceInputValueType, int, ServiceInputParamDraft, value_of, service_input_params_to_record,
}
use linkflow_v.ServiceInput.Laws.{HaveDistinctNames, IsSent, service_input_params_to_record-IsSent}

abbrev parse : String → Attempt (Json Small)
parse s = ok null

abbrev params : List ServiceInputParamDraft
params =
    record { id = "a"; name = " speed "; value = "1"; value_type = int }
    ∷ record { id = "b"; name = "force"; value = "true"; value_type = ServiceInputValueType.bool }
    ∷ []

abbrev input : Fields Small
input = field "speed" (num one) (field "force" (Json.bool true) end)

gives_input : service_input_params_to_record small parse params ≡ ok input
unfolding service_input_params_to_record value_of trim assign put comes_before
gives_input = refl

speed_twice :
    service_input_params_to_record small parse (
      record { id = "a"; name = "speed"; value = "1"; value_type = int }
      ∷ record { id = "b"; name = " speed"; value = "0"; value_type = int }
      ∷ [])
    ≡ thrown "Duplicate service input parameter: speed"
unfolding service_input_params_to_record value_of trim assign put
speed_twice = refl

service_input_params_to_record-IsSent_example :
    All (IsSent small parse input) params × HaveDistinctNames params
unfolding trim
service_input_params_to_record-IsSent_example =
    service_input_params_to_record-IsSent small parse params input
      (ground (arith, eq_iff "speed" "__proto__"), (ground (arith, eq_iff "force" "__proto__"), tt))
      gives_input

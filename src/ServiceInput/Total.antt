-- ===== src/ServiceInput/Total.antt =====
-- When the form of web/src/pages/Admin/DevicePropertyManagement.tsx gives an input.
use linkflow_v.Prelude.{
  String, false, List, [], ◌∷◌, ◌==◌, ◌≡◌, ◌≢◌, refl, arith, eq_iff, All, Attempt, ok,
}
use linkflow_v.Js.Json.{Json, Fields, end}
use linkflow_v.Js.Object.{assign}
use linkflow_v.Js.Number.{Numbers}
use linkflow_v.Js.Text.{trim}
use linkflow_v.ServiceInput.{
  ServiceInputParamDraft, is_seen, value_of, add_params, service_input_params_to_record,
}
use linkflow_v.ServiceInput.Laws.{HaveDistinctNames}

abbrev AreNew : List String → List ServiceInputParamDraft → Type 0
AreNew seen params = All (λ param. is_seen (trim param.name) seen ≡ false) params

-- Names that are not seen are not seen after a name that is none of them.
AreNew-cons :
    (name : String) (seen : List String) (params : List ServiceInputParamDraft)
    → All (λ other. name ≢ trim other.name) params
    → AreNew seen params
    → AreNew (name ∷ seen) params
AreNew-cons name seen [] h k = tt
AreNew-cons name seen (param ∷ params) (ne, h) (new, k) =
    (ground (arith, eq_iff name (trim param.name)), AreNew-cons name seen params h k)

AreNew-nil : (params : List ServiceInputParamDraft) → AreNew [] params
AreNew-nil [] = tt
AreNew-nil (param ∷ params) = (refl, AreNew-nil params)

module _ {N : Type 0} (ops : Numbers N) (parse : String → Attempt (Json N)) where
  -- A parameter with a name and a value of its type.
  abbrev pub IsReadable : ServiceInputParamDraft → Type 0
  IsReadable param =
      (trim param.name ≢ "")
      × (v : Json N) × (value_of ops parse (trim param.name) param.value_type param.value ≡ ok v)

  add_params-ok :
      (params : List ServiceInputParamDraft) (values : Fields N) (seen : List String)
      → All IsReadable params
      → HaveDistinctNames params
      → AreNew seen params
      → (o : Fields N) × (add_params ops parse params values seen ≡ ok o)
  unfolding add_params
  add_params-ok [] values seen h d k = (values, refl)
  add_params-ok (param ∷ params) values seen ((named, v, made), h) (other, d) (new, k) =
      let (o, rest) =
        add_params-ok params (assign (trim param.name) v values) (trim param.name ∷ seen) h d
          (AreNew-cons (trim param.name) seen params other k) in
      let n : (trim param.name == "") ≡ false = ground (arith, eq_iff (trim param.name) "") in
      (o, rw (n, new, made) rest)

  pub service_input_params_to_record-ok :
      (params : List ServiceInputParamDraft)
      → All IsReadable params
      → HaveDistinctNames params
      → (o : Fields N) × (service_input_params_to_record ops parse params ≡ ok o)
  unfolding service_input_params_to_record
  service_input_params_to_record-ok params h d = add_params-ok params end [] h d (AreNew-nil params)

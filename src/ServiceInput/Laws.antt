-- ===== src/ServiceInput/Laws.antt =====
-- What the input of a service call contains, in web/src/pages/Admin/DevicePropertyManagement.tsx.
use linkflow_v.Prelude.{
  String, true, false, some, List, [], ◌∷◌, ◌==◌, ◌≡◌, ◌≢◌, refl, arith, eq_iff, eq_refl, All,
  Attempt, ok, >>=-eq-ok, Bool-cases, inl, inr,
}
use linkflow_v.Js.Json.{Json, Fields, end}
use linkflow_v.Js.Object.{get, assign}
use linkflow_v.Js.Object.Laws.{get-assign}
use linkflow_v.Js.Number.{Numbers}
use linkflow_v.Js.Text.{trim}
use linkflow_v.ServiceInput.{
  ServiceInputParamDraft, is_seen, value_of, add_params, service_input_params_to_record,
}

abbrev pub HaveDistinctNames : List ServiceInputParamDraft → Type 0
HaveDistinctNames [] = Unit
HaveDistinctNames (param ∷ params) =
    All (λ other. trim param.name ≢ trim other.name) params × HaveDistinctNames params

module _ {N : Type 0} (ops : Numbers N) (parse : String → Attempt (Json N)) where
  -- The parameter has a name, and its value is in the record under this name.
  abbrev pub IsSent : Fields N → ServiceInputParamDraft → Type 0
  IsSent o param =
      (trim param.name ≢ "")
      × (v : Json N) × (value_of ops parse (trim param.name) param.value_type param.value ≡ ok v)
      × (get (trim param.name) o ≡ some v)

  add_params-step :
      (param : ServiceInputParamDraft) (params : List ServiceInputParamDraft) (values o : Fields N)
      (seen : List String)
      → add_params ops parse (param ∷ params) values seen ≡ ok o
      → (trim param.name ≢ "")
        × (is_seen (trim param.name) seen ≡ false)
        × (v : Json N) × (value_of ops parse (trim param.name) param.value_type param.value ≡ ok v)
        × (add_params ops parse params (assign (trim param.name) v values) (trim param.name ∷ seen)
            ≡ ok o)
  unfolding add_params
  add_params-step param params values o seen e = elim (Bool-cases (trim param.name == "")) [
    | inl p ↦ let e' = (rw (p, add_params) at e) in cc
    | inr p ↦ elim (Bool-cases (is_seen (trim param.name) seen)) [
      | inl q ↦ let e' = (rw (p, q, add_params) at e) in cc
      | inr q ↦
          let (v, made, rest) =
            >>=-eq-ok (value_of ops parse (trim param.name) param.value_type param.value) _
              (rw (p, q, add_params) at e) in
          (λ n. ground (arith, (eq_iff (trim param.name) "").1 n), q, v, made, rest)
    ]
  ]

  -- A name that was seen is no later name, and its value stays.
  add_params-seen :
      (k : String) (params : List ServiceInputParamDraft) (values o : Fields N) (seen : List String)
      → is_seen k seen ≡ true
      → All (λ param. trim param.name ≢ "__proto__") params
      → add_params ops parse params values seen ≡ ok o
      → All (λ other. k ≢ trim other.name) params × (get k o ≡ get k values)
  unfolding add_params
  add_params-seen k [] values o seen s h e = let same : values ≡ o = cc in (tt, rw same refl)
  add_params-seen k (param ∷ params) values o seen s (np, h) e =
      let (ne, new, v, made, rest) = add_params-step param params values o seen e in
      let other : k ≢ trim param.name = λ p. let old : is_seen k seen ≡ false = rw p new in cc in
      let (d, same) = add_params-seen k params _ o (trim param.name ∷ seen) (ground arith) h rest in
      (
        (other, d),
        rw (same, get-assign (trim param.name) k v values np)
            (ground (arith, eq_iff (trim param.name) k)),
      )

  add_params-IsSent :
      (params : List ServiceInputParamDraft) (values o : Fields N) (seen : List String)
      → All (λ param. trim param.name ≢ "__proto__") params
      → add_params ops parse params values seen ≡ ok o
      → All (IsSent o) params × HaveDistinctNames params
  add_params-IsSent [] values o seen h e = (tt, tt)
  add_params-IsSent (param ∷ params) values o seen (np, h) e =
      let (ne, new, v, made, rest) = add_params-step param params values o seen e in
      let (d, same) =
        add_params-seen (trim param.name) params _ o (trim param.name ∷ seen)
          (ground (arith, eq_refl (trim param.name))) h rest in
      let (sent, distinct) = add_params-IsSent params _ o _ h rest in
      (
        (
          (
            ne,
            v,
            made,
            rw (same, get-assign (trim param.name) (trim param.name) v values np, eq_refl) refl,
          ),
          sent,
        ),
        (d, distinct),
      )

  -- If no trimmed name is `__proto__` and the form gives a record, then all names are there and
  -- pairwise distinct, and the record has under each name the value of this parameter.
  pub service_input_params_to_record-IsSent :
      (params : List ServiceInputParamDraft) (o : Fields N)
      → All (λ param. trim param.name ≢ "__proto__") params
      → service_input_params_to_record ops parse params ≡ ok o
      → All (IsSent o) params × HaveDistinctNames params
  unfolding service_input_params_to_record
  service_input_params_to_record-IsSent params o h e = add_params-IsSent params end o [] h e

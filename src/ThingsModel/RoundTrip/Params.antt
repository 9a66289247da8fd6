-- ===== src/ThingsModel/RoundTrip/Params.antt =====
-- A parameter's definition, read into a row and built again.
use linkflow_v.Prelude.{
  ℕ, String, Option, some, ◌≡◌, refl, ◌∙◌, ap, ok, >>=-eq-ok, Bool-cases, inl, inr,
}
use linkflow_v.Js.Json.{Json, bool, str, obj, Fields}
use linkflow_v.Js.Object.{get, put, has_keys}
use linkflow_v.Js.Object.Laws.{get-put, get-put_self}
use linkflow_v.Js.Number.{Numbers}
use linkflow_v.Js.Text.{trim, trim_idem}
use linkflow_v.ThingsModel.Types.{
  PropertyDataType, int, PropertyAccessMode, read, data_type_text, access_mode_text, ParamDraft,
  ParamDraftRow, PropertyDraftRow,
}
use linkflow_v.ThingsModel.Build.{
  spec_of, num_json, number_or_undefined, int_or_undefined, param_spec_from_draft, definition_with,
  param_definition_from_draft, define_param, property_definition_from_draft, define_property,
}
use linkflow_v.ThingsModel.Read.{
  plain_or_empty, string_from_unknown, bool_from_unknown, data_type_from_unknown,
  access_mode_from_unknown, text_or_empty, param_draft_of, draft_from_param_definition,
  property_row_of,
}
use linkflow_v.ThingsModel.RoundTrip.Spec.{
  AreNumbers, number_or_undefined-text, int_or_undefined-text, get-min-spec_of, get-max-spec_of,
  get-step-spec_of, get-precision-spec_of, get-unit-spec_of, has_keys-false,
}

data_type_from_unknown-text :
    (N : Type 0) (t : PropertyDataType)
    → data_type_from_unknown {N = N} (some (str (data_type_text t))) ≡ t
unfolding data_type_from_unknown
data_type_from_unknown-text N int = refl
data_type_from_unknown-text N _ = refl

access_mode_from_unknown-text :
    (N : Type 0) (t : PropertyAccessMode)
    → access_mode_from_unknown {N = N} (some (str (access_mode_text t))) ≡ t
unfolding access_mode_from_unknown
access_mode_from_unknown-text N read = refl
access_mode_from_unknown-text N _ = refl

-- What reading needs of a definition's object: its properties are those that the draft gives.
record Shows {N : Type 0} (d : ParamDraft) (spec body : Fields N) : Type 0 where
  shows_name : get "name" body ≡ some (str (trim d.name))
  shows_type : get "data_type" body ≡ some (str (data_type_text d.data_type))
  shows_required : get "required" body ≡ some (bool d.required)
  shows_spec : plain_or_empty (get "spec" body) ≡ spec

definition_with-Shows :
    {N : Type 0} (d : ParamDraft) (spec : Fields N) → Shows d spec (definition_with d spec)
unfolding get plain_or_empty
definition_with-Shows d spec = elim (Bool-cases (has_keys spec)) [
  | inl p ↦ record {
    shows_name = rw p (simp get-put);
    shows_type = rw p (simp get-put);
    shows_required = rw p (simp get-put);
    shows_spec = rw p (simp get-put);
  }
  | inr p ↦
      rw (has_keys-false spec p)
        (record { shows_name = refl; shows_type = refl; shows_required = refl; shows_spec = refl })
]

-- A property's access mode hides none of them.
put-Shows :
    {N : Type 0} (d : ParamDraft) (spec : Fields N) (v : Json N) (o : Fields N)
    → Shows d spec o
    → Shows d spec (put "access_mode" v o)
put-Shows d spec v o shows = record {
  shows_name = simp get-put shows.shows_name;
  shows_type = simp get-put shows.shows_type;
  shows_required = simp get-put shows.shows_required;
  shows_spec = simp get-put shows.shows_spec;
}

module _ {N : Type 0} (ops : Numbers N) (laws : AreNumbers ops) where
  -- The specification that a draft builds, in parts.
  record Specifies (d : ParamDraft) (spec : Fields N) : Type 0 where
    min : Option N
    max : Option N
    step : Option N
    precision : Option N
    min_read : number_or_undefined ops d.min ≡ ok min
    max_read : number_or_undefined ops d.max ≡ ok max
    step_read : number_or_undefined ops d.step ≡ ok step
    precision_read : int_or_undefined ops d.precision ≡ ok precision
    built : spec ≡ spec_of min max step (trim d.unit) precision

  param_spec_from_draft-Specifies :
      (d : ParamDraft) (spec : Fields N) → param_spec_from_draft ops d ≡ ok spec → Specifies d spec
  unfolding param_spec_from_draft
  param_spec_from_draft-Specifies d spec h =
      let (min, min_read, h1) = >>=-eq-ok (number_or_undefined ops d.min) _ h in
      let (max, max_read, h2) = >>=-eq-ok (number_or_undefined ops d.max) _ h1 in
      let (step, step_read, h3) = >>=-eq-ok (number_or_undefined ops d.step) _ h2 in
      let (precision, precision_read, h4) = >>=-eq-ok (int_or_undefined ops d.precision) _ h3 in
      record {
        min = min;
        max = max;
        step = step;
        precision = precision;
        min_read = min_read;
        max_read = max_read;
        step_read = step_read;
        precision_read = precision_read;
        built = cc;
      }

  -- A draft with the texts of these parts builds the same specification.
  spec_again :
      (d e : ParamDraft) (spec : Fields N) (s : Specifies d spec)
      → e.min ≡ text_or_empty ops (num_json s.min)
      → e.max ≡ text_or_empty ops (num_json s.max)
      → e.step ≡ text_or_empty ops (num_json s.step)
      → e.precision ≡ text_or_empty ops (num_json s.precision)
      → e.unit ≡ trim d.unit
      → param_spec_from_draft ops e ≡ ok spec
  unfolding param_spec_from_draft
  spec_again d e spec s a b c p u =
      rw (a, b, c, p, u)
        (rw
          (
            number_or_undefined-text ops laws d.min s.min s.min_read,
            number_or_undefined-text ops laws d.max s.max s.max_read,
            number_or_undefined-text ops laws d.step s.step s.step_read,
            int_or_undefined-text ops laws d.precision s.precision s.precision_read,
            trim_idem d.unit,
            s.built,
          )
          refl)

  definition_with-same :
      (d e : ParamDraft) (spec : Fields N)
      → trim e.name ≡ trim d.name
      → e.data_type ≡ d.data_type
      → e.required ≡ d.required
      → definition_with e spec ≡ definition_with d spec
  definition_with-same d e spec a b c = rw (a, b, c) refl

  -- Reading a definition back gives a draft that builds the same definition.
  module _ (d : ParamDraft) (spec body : Fields N) (k : String) (shows : Shows d spec body)
      (s : Specifies d spec) where
    read_property :
        (key : String) (o : Option N)
        → get key (spec_of s.min s.max s.step (trim d.unit) s.precision) ≡ num_json o
        → text_or_empty ops (get key (plain_or_empty (get "spec" body)))
          ≡ text_or_empty ops (num_json o)
    read_property key o e =
        ap (λ p. text_or_empty ops (get key p)) (shows.shows_spec ∙ s.built)
        ∙ ap (text_or_empty ops) e

    spec_of_read : param_spec_from_draft ops (param_draft_of ops k (some (obj body))) ≡ ok spec
    unfolding param_draft_of
    spec_of_read =
        spec_again d (param_draft_of ops k (some (obj body))) spec s
          (read_property "min" s.min (get-min-spec_of _ _ _ _ _))
          (read_property "max" s.max (get-max-spec_of _ _ _ _ _))
          (read_property "step" s.step (get-step-spec_of _ _ _ _ _))
          (read_property "precision" s.precision (get-precision-spec_of _ _ _ _ _))
          (ap (λ p. string_from_unknown (get "unit" p)) (shows.shows_spec ∙ s.built)
            ∙ get-unit-spec_of _ _ _ _ _)

    param_definition_of_read :
        param_definition_from_draft ops (param_draft_of ops k (some (obj body)))
        ≡ ok (definition_with d spec)
    unfolding param_definition_from_draft param_draft_of plain_or_empty
    param_definition_of_read = rw spec_of_read (
        ap (λ o. ok o)
          (definition_with-same d (param_draft_of ops k (some (obj body))) spec
            (ap (λ v. trim (string_from_unknown v)) shows.shows_name ∙ trim_idem d.name)
            (ap (λ v. data_type_from_unknown v) shows.shows_type
              ∙ data_type_from_unknown-text N d.data_type)
            (ap (λ v. bool_from_unknown v) shows.shows_required)))

  -- A parameter's definition is built again by the row that it is read into.
  pub define_param_stable :
      (fresh : ℕ → String) (row : ParamDraftRow) (v : Json N)
      → define_param ops row ≡ ok v
      → (k : String) (n : ℕ)
      → define_param ops (draft_from_param_definition ops fresh k v n).0 ≡ ok v
  unfolding define_param draft_from_param_definition param_definition_from_draft
  define_param_stable fresh row v h k n =
      let (definition, h1, h2) = >>=-eq-ok (param_definition_from_draft ops row.param) _ h in
      let (spec, h3, h4) = >>=-eq-ok (param_spec_from_draft ops row.param) _ h1 in
      let same : v ≡ obj (definition_with row.param spec) = cc in
      rw same (
        rw
          (param_definition_of_read row.param spec (definition_with row.param spec) k
            (definition_with-Shows row.param spec)
            (param_spec_from_draft-Specifies row.param spec h3))
          refl)

  -- So is a property's definition.
  pub define_property_stable :
      (fresh : ℕ → String) (row : PropertyDraftRow) (v : Json N)
      → define_property ops row ≡ ok v
      → (k : String) (n : ℕ) → define_property ops (property_row_of ops fresh k v n).0 ≡ ok v
  unfolding define_property property_definition_from_draft property_row_of
      param_definition_from_draft plain_or_empty
  define_property_stable fresh row v h k n =
      let (built, h1, h2) = >>=-eq-ok (property_definition_from_draft ops row.draft) _ h in
      let (definition, h3, h4) = >>=-eq-ok (param_definition_from_draft ops row.param) _ h1 in
      let (spec, h5, h6) = >>=-eq-ok (param_spec_from_draft ops row.param) _ h3 in
      let body =
        put "access_mode" (str (access_mode_text row.access_mode))
          (definition_with row.param spec) in
      let same : v ≡ obj body = cc in
      rw same (
        rw
          (
            param_definition_of_read row.param spec body k
                (put-Shows row.param spec _ _ (definition_with-Shows row.param spec))
                (param_spec_from_draft-Specifies row.param spec h5),
            get-put_self "access_mode" (str (access_mode_text row.access_mode))
                (definition_with row.param spec),
            access_mode_from_unknown-text N row.access_mode,
          )
          refl)

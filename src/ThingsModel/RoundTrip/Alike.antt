-- ===== src/ThingsModel/RoundTrip/Alike.antt =====
-- Definitions that the editor of web/src/pages/Admin/ThingsModelManagement.tsx reads into the same rows:
-- the fields of a definition may stand in another order, and there may be fields that it does not
-- read.
use linkflow_v.Prelude.{ℕ, String, some, ◌≡◌, refl}
use linkflow_v.Js.Json.{Json, Fields, end, field}
use linkflow_v.Js.Object.{get}
use linkflow_v.Js.Number.{Numbers}
use linkflow_v.ThingsModel.Read.{
  plain_or_empty, param_draft_of, draft_from_param_definition, rows_of, property_row_of,
  property_rows_from_object, event_row_of, event_rows_from_object, service_row_of,
  service_rows_from_object,
}

module _ {N : Type 0} where
  -- Two objects have the same value for a key.
  abbrev pub SameAt : String → Fields N → Fields N → Type 0
  SameAt k a b = get k a ≡ get k b

  abbrev pub body : Json N → Fields N
  body v = plain_or_empty (some v)

  abbrev pub part : String → Json N → Fields N
  part k v = plain_or_empty (get k (body v))

  pub record IsSameParam (v w : Json N) : Type 0 where
    pub same_name : SameAt "name" (body v) (body w)
    pub same_type : SameAt "data_type" (body v) (body w)
    pub same_required : SameAt "required" (body v) (body w)
    pub same_min : SameAt "min" (part "spec" v) (part "spec" w)
    pub same_max : SameAt "max" (part "spec" v) (part "spec" w)
    pub same_step : SameAt "step" (part "spec" v) (part "spec" w)
    pub same_unit : SameAt "unit" (part "spec" v) (part "spec" w)
    pub same_precision : SameAt "precision" (part "spec" v) (part "spec" w)

  -- The same keys in the same order, with values that are alike.
  abbrev pub IsAlike : (Json N → Json N → Type 0) → Fields N → Fields N → Type 0
  IsAlike R end end = Unit
  IsAlike R end (field k w p) = ⊥
  IsAlike R (field j v o) end = ⊥
  IsAlike R (field j v o) (field k w p) = (j ≡ k) × R v w × IsAlike R o p

  abbrev pub IsSameProperty : Json N → Json N → Type 0
  IsSameProperty v w = SameAt "access_mode" (body v) (body w) × IsSameParam v w

  abbrev pub IsSameEvent : Json N → Json N → Type 0
  IsSameEvent v w =
      SameAt "name" (body v) (body w)
      × SameAt "desc" (body v) (body w)
      × SameAt "level" (body v) (body w)
      × IsAlike IsSameParam (part "output" v) (part "output" w)

  abbrev pub IsSameService : Json N → Json N → Type 0
  IsSameService v w =
      SameAt "name" (body v) (body w)
      × SameAt "desc" (body v) (body w)
      × SameAt "call_type" (body v) (body w)
      × IsAlike IsSameParam (part "input" v) (part "input" w)
      × IsAlike IsSameParam (part "output" v) (part "output" w)

  rows_of-IsAlike :
      {R : Type 0} (make : String → Json N → ℕ → R × ℕ) (P : Json N → Json N → Type 0)
      (same : (k : String) (v w : Json N) (n : ℕ) → P v w → make k v n ≡ make k w n)
      (o p : Fields N) (n : ℕ)
      → IsAlike P o p
      → rows_of make o n ≡ rows_of make p n
  unfolding rows_of
  rows_of-IsAlike make P same end end n h = refl
  rows_of-IsAlike make P same end (field k w p) n h = absurd h
  rows_of-IsAlike make P same (field j v o) end n h = absurd h
  rows_of-IsAlike make P same (field j v o) (field k w p) n (e, r, h) =
      rw (e, same k v w n r, rows_of-IsAlike make P same o p (make k w n).1 h) refl

module _ {N : Type 0} (ops : Numbers N) (fresh : ℕ → String) where
  param_draft_of-IsSameParam :
      (k : String) (v w : Json N)
      → IsSameParam v w
      → param_draft_of ops k (some v) ≡ param_draft_of ops k (some w)
  unfolding param_draft_of
  param_draft_of-IsSameParam k v w h =
      rw
        (
          h.same_name, h.same_type, h.same_required, h.same_min, h.same_max, h.same_step,
          h.same_unit, h.same_precision,
        )
        refl

  draft-IsSameParam :
      (k : String) (v w : Json N) (n : ℕ)
      → IsSameParam v w
      → draft_from_param_definition ops fresh k v n ≡ draft_from_param_definition ops fresh k w n
  unfolding draft_from_param_definition
  draft-IsSameParam k v w n h = rw (param_draft_of-IsSameParam k v w h) refl

  property_row_of-IsSameProperty :
      (k : String) (v w : Json N) (n : ℕ)
      → IsSameProperty v w
      → property_row_of ops fresh k v n ≡ property_row_of ops fresh k w n
  unfolding property_row_of
  property_row_of-IsSameProperty k v w n (mode, h) =
      rw (param_draft_of-IsSameParam k v w h, mode) refl

  event_row_of-IsSameEvent :
      (k : String) (v w : Json N) (n : ℕ)
      → IsSameEvent v w
      → event_row_of ops fresh k v n ≡ event_row_of ops fresh k w n
  unfolding event_row_of
  event_row_of-IsSameEvent k v w n (name, desc, level, output) =
      rw
        (
          name,
          desc,
          level,
          rows_of-IsAlike (draft_from_param_definition ops fresh) IsSameParam draft-IsSameParam
              (part "output" v) (part "output" w) n output,
        )
        refl

  service_row_of-IsSameService :
      (k : String) (v w : Json N) (n : ℕ)
      → IsSameService v w
      → service_row_of ops fresh k v n ≡ service_row_of ops fresh k w n
  unfolding service_row_of
  service_row_of-IsSameService k v w n (name, desc, call_type, input, output) =
      rw
        (
          name,
          desc,
          call_type,
          rows_of-IsAlike (draft_from_param_definition ops fresh) IsSameParam draft-IsSameParam
              (part "input" v) (part "input" w) n input,
          rows_of-IsAlike (draft_from_param_definition ops fresh) IsSameParam draft-IsSameParam
              (part "output" v) (part "output" w) _ output,
        )
        refl

  pub property_rows_from_object-IsAlike :
      (o p : Fields N) (n : ℕ)
      → IsAlike IsSameProperty o p
      → property_rows_from_object ops fresh o n ≡ property_rows_from_object ops fresh p n
  unfolding property_rows_from_object
  property_rows_from_object-IsAlike o p n =
      rows_of-IsAlike (property_row_of ops fresh) IsSameProperty property_row_of-IsSameProperty o p
        n

  pub event_rows_from_object-IsAlike :
      (o p : Fields N) (n : ℕ)
      → IsAlike IsSameEvent o p
      → event_rows_from_object ops fresh o n ≡ event_rows_from_object ops fresh p n
  unfolding event_rows_from_object
  event_rows_from_object-IsAlike o p n =
      rows_of-IsAlike (event_row_of ops fresh) IsSameEvent event_row_of-IsSameEvent o p n

  pub service_rows_from_object-IsAlike :
      (o p : Fields N) (n : ℕ)
      → IsAlike IsSameService o p
      → service_rows_from_object ops fresh o n ≡ service_rows_from_object ops fresh p n
  unfolding service_rows_from_object
  service_rows_from_object-IsAlike o p n =
      rows_of-IsAlike (service_row_of ops fresh) IsSameService service_row_of-IsSameService o p n

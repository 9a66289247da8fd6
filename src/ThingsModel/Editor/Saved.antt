-- ===== src/ThingsModel/Editor/Saved.antt =====
-- What the saving of a model in web/src/pages/Admin/ThingsModelManagement.tsx sends and keeps.
use linkflow_v.Prelude.{
  ℕ, String, Bool, true, false, not, ◌&&◌, Option, none, some, List, ◌∷◌, ◌==◌, ◌≡◌, ◌≢◌, ◌⊎◌, inl,
  inr, refl, arith, eq_iff, all, Bool-cases, ok, Attempt-cases,
}
use linkflow_v.Js.Json.{Fields}
use linkflow_v.Js.Number.{Numbers}
use linkflow_v.Js.Text.{trim}
use linkflow_v.Services.Call.{PageResult, Payload, nothing, as_params, as_data}
use linkflow_v.Services.ThingsModels.{
  ThingsModelStatus, draft, published, deprecated, ThingsModel, ThingsModelCreateInput,
  ThingsModelUpdateInput, create_things_model, update_things_model, list_things_models,
}
use linkflow_v.ThingsModel.Types.{PropertyDraftRow, EventDraftRow, ServiceDraftRow}
use linkflow_v.ThingsModel.Build.{
  object_from_property_rows, object_from_event_rows, object_from_service_rows,
}
use linkflow_v.ThingsModel.Rows.{validate_definition_rows}
use linkflow_v.ThingsModel.RoundTrip.Spec.{AreNumbers}
use linkflow_v.ThingsModel.RoundTrip.Objects.{
  object_from_property_rows-property_rows_from_object,
  object_from_event_rows-event_rows_from_object, object_from_service_rows-service_rows_from_object,
}
use linkflow_v.ThingsModel.RoundTrip.Alike.{
  IsAlike, IsSameProperty, IsSameEvent, IsSameService, property_rows_from_object-IsAlike,
  event_rows_from_object-IsAlike, service_rows_from_object-IsAlike,
}
use linkflow_v.ThingsModel.Editor.{
  FormMode, create, edit, Failure, Answer, answered, failed, Sent, listed, created, updated,
  deleted, Editor, close_form, load_models, list_params, open_edit_form,
}
use linkflow_v.ThingsModel.Editor.Submit.{
  is_published, Definitions, definitions_of, create_input, update_input, submit, handle_submit,
}

-- Only a published model is current.
abbrev pub is_allowed : ThingsModelStatus → Bool → Bool
is_allowed published is_current = true
is_allowed draft is_current = not is_current
is_allowed deprecated is_current = not is_current

is_published-is_allowed :
    (status : ThingsModelStatus) (flag : Bool)
    → is_allowed status (is_published status && flag) ≡ true
is_published-is_allowed published flag = refl
is_published-is_allowed draft flag = refl
is_published-is_allowed deprecated flag = refl

module _ {N : Type 0} where
  abbrev pub create_is_sound : Payload (ThingsModelCreateInput N) → Bool
  create_is_sound (as_data body) = is_allowed body.status body.is_current
  create_is_sound (as_params body) = false
  create_is_sound nothing = false

  abbrev pub update_is_sound : Payload (ThingsModelUpdateInput N) → Bool
  update_is_sound (as_data body) = is_allowed body.status body.is_current
  update_is_sound (as_params body) = false
  update_is_sound nothing = false

  -- A call that asks for a current model only with the status published.
  abbrev pub is_sound : Sent N → Bool
  is_sound (created c) = create_is_sound c.payload
  is_sound (updated c) = update_is_sound c.payload
  is_sound (listed c) = true
  is_sound (deleted c) = true

  load_models-is_sound :
      (answer : Answer (PageResult (ThingsModel N))) (p q : ℕ) (s : Editor N)
      → all is_sound s.sent ≡ true
      → all is_sound (load_models answer p q s).sent ≡ true
  unfolding load_models
  load_models-is_sound (answered r) p q s h = ground arith
  load_models-is_sound (failed e) p q s h = ground arith

module _ {N : Type 0} (ops : Numbers N) where
  all-create_things_model :
      (d : Definitions N) (s : Editor N)
      → all is_sound s.sent ≡ true
      → all is_sound (created (create_things_model (create_input ops d s)) ∷ s.sent) ≡ true
  unfolding create_things_model
  all-create_things_model d s h = rw (is_published-is_allowed s.form.status s.form.is_current) h

  all-update_things_model :
      (id : String) (d : Definitions N) (s : Editor N)
      → all is_sound s.sent ≡ true
      → all is_sound (updated (update_things_model id (update_input d s)) ∷ s.sent) ≡ true
  unfolding update_things_model
  all-update_things_model id d s h = rw (is_published-is_allowed s.form.status s.form.is_current) h

  submit-is_sound :
      (saved : Answer (ThingsModel N)) (list : Answer (PageResult (ThingsModel N)))
      (mode : Option FormMode) (model : Option (ThingsModel N)) (d : Definitions N) (s : Editor N)
      → all is_sound s.sent ≡ true
      → all is_sound (submit ops saved list mode model d s).sent ≡ true
  unfolding close_form
  submit-is_sound (answered m) list (some create) model d s h =
      load_models-is_sound list 1 s.page_size _ (all-create_things_model d s h)
  submit-is_sound (failed e) list (some create) model d s h = all-create_things_model d s h
  submit-is_sound (answered m) list (some edit) (some model) d s h =
      load_models-is_sound list s.page s.page_size _ (all-update_things_model model.id d s h)
  submit-is_sound (failed e) list (some edit) (some model) d s h =
      all-update_things_model model.id d s h
  submit-is_sound saved list (some edit) none d s h =
      load_models-is_sound list s.page s.page_size _ h
  submit-is_sound saved list none model d s h = load_models-is_sound list s.page s.page_size _ h

  -- If no call before asked for a current model that is not published, then none does after a save,
  -- whatever the form says: a creation or an update with the status draft or deprecated is sent with
  -- `is_current` off.
  pub handle_submit-is_sound :
      (saved : Answer (ThingsModel N)) (list : Answer (PageResult (ThingsModel N))) (s : Editor N)
      → all is_sound s.sent ≡ true
      → all is_sound (handle_submit ops saved list s).sent ≡ true
  unfolding handle_submit
  handle_submit-is_sound saved list s h = elim (Bool-cases (s.tenant_id == "")) [
    | inl p ↦ rw p h
    | inr p ↦
        elim (Bool-cases (validate_definition_rows s.property_rows s.event_rows s.service_rows)) [
          | inr q ↦ rw (p, q) h
          | inl q ↦ elim (Attempt-cases (definitions_of ops s)) [
            | inl (message, e) ↦ rw (p, q, e) h
            | inr (d, e) ↦
                rw (p, q, e) (submit-is_sound saved list s.form_mode s.editing_model d s h)
          ]
        ]
  ]

-- The form is open for a new model, or for a given one.
abbrev pub IsOpen : {N : Type 0} → Editor N → Type 0
IsOpen {N} s =
    (s.form_mode ≡ some create)
    ⊎ (s.form_mode ≡ some edit) × (model : ThingsModel N) × (s.editing_model ≡ some model)

-- If the service refuses to save an open form, the form stays open with everything that was entered.
pub handle_submit-failed :
    {N : Type 0} (ops : Numbers N) (e : Failure) (list : Answer (PageResult (ThingsModel N)))
    (s : Editor N)
    → IsOpen s
    → ((handle_submit ops (failed e) list s).form_mode ≡ s.form_mode)
      × ((handle_submit ops (failed e) list s).form ≡ s.form)
      × ((handle_submit ops (failed e) list s).property_rows ≡ s.property_rows)
      × ((handle_submit ops (failed e) list s).event_rows ≡ s.event_rows)
      × ((handle_submit ops (failed e) list s).service_rows ≡ s.service_rows)
unfolding handle_submit
handle_submit-failed ops e list s o = ground arith

load_models-sent :
    {N : Type 0} (answer : Answer (PageResult (ThingsModel N))) (p q : ℕ) (s : Editor N)
    → s.tenant_id ≢ ""
    → (load_models answer p q s).sent ≡ listed (list_things_models (list_params p q s)) ∷ s.sent
unfolding load_models
load_models-sent (answered r) p q s h = ground (arith, eq_iff s.tenant_id "")
load_models-sent (failed e) p q s h = ground (arith, eq_iff s.tenant_id "")

-- Three objects that rows build.
abbrev pub IsBuilt : {N : Type 0} → Numbers N → Definitions N → Type 0
IsBuilt ops d =
    ((rows : List PropertyDraftRow) × (object_from_property_rows ops rows ≡ ok d.properties))
    × ((rows : List EventDraftRow) × (object_from_event_rows ops rows ≡ ok d.events))
    × ((rows : List ServiceDraftRow) × (object_from_service_rows ops rows ≡ ok d.services))

-- The definitions of a model are these ones but for the order of the fields in each definition of a
-- property, event, service or parameter, and for fields that the editor does not read.
abbrev pub IsReadAs : {N : Type 0} → ThingsModel N → Definitions N → Type 0
IsReadAs model d =
    IsAlike IsSameProperty model.properties d.properties
    × IsAlike IsSameEvent model.events d.events
    × IsAlike IsSameService model.services d.services

definitions_of-open_edit_form :
    {N : Type 0} (ops : Numbers N) (stringify : Fields N → String) (fresh : ℕ → String)
    (laws : AreNumbers ops) (model : ThingsModel N) (d : Definitions N) (s : Editor N)
    → IsBuilt ops d
    → IsReadAs model d
    → definitions_of ops (open_edit_form ops stringify fresh model s) ≡ ok d
unfolding definitions_of open_edit_form
definitions_of-open_edit_form ops stringify fresh laws model d s ((ps, hp), (es, he), (vs, hv))
      (rp, re, rv) =
    rw
      (
        property_rows_from_object-IsAlike ops fresh model.properties d.properties s.next_id rp,
        event_rows_from_object-IsAlike ops fresh model.events d.events _ re,
        service_rows_from_object-IsAlike ops fresh model.services d.services _ rv,
      )
      (rw
        (
          object_from_property_rows-property_rows_from_object ops fresh laws ps d.properties _ hp,
          object_from_event_rows-event_rows_from_object ops fresh laws es d.events _ he,
          object_from_service_rows-service_rows_from_object ops fresh laws vs d.services _ hv,
        )
        refl)

-- Opening a model for editing and saving it at once sends an update with the model's definitions,
-- and then a reading of the list, if a tenant is chosen, the rows are valid and the service
-- accepts the update. Of the definitions it is assumed that, but for the order of the fields in a
-- definition and for fields that the editor does not read, they are ones that rows build: these
-- are sent. The numbers print and parse back as `AreNumbers` says.
pub handle_submit-open_edit_form :
    {N : Type 0} (ops : Numbers N) (stringify : Fields N → String) (fresh : ℕ → String)
    (laws : AreNumbers ops) (model answer : ThingsModel N) (d : Definitions N)
    (list : Answer (PageResult (ThingsModel N))) (s : Editor N)
    → IsBuilt ops d
    → IsReadAs model d
    → s.tenant_id ≢ ""
    → validate_definition_rows
        (open_edit_form ops stringify fresh model s).property_rows
        (open_edit_form ops stringify fresh model s).event_rows
        (open_edit_form ops stringify fresh model s).service_rows
      ≡ true
    → (handle_submit ops (answered answer) list (open_edit_form ops stringify fresh model s)).sent
      ≡ listed (list_things_models (list_params s.page s.page_size s))
        ∷ updated (
            update_things_model model.id (record {
              model_name = trim model.model_name;
              description = trim model.description;
              status = model.status;
              is_current = is_published model.status && model.is_current;
              properties = d.properties;
              events = d.events;
              services = d.services;
            }))
        ∷ s.sent
unfolding handle_submit open_edit_form close_form
handle_submit-open_edit_form ops stringify fresh laws model answer d list s built same ht valid =
    elim (Bool-cases (s.tenant_id == "")) [
      | inl p ↦ absurd (ht ((eq_iff _ _).0 p))
      | inr p ↦
          rw (p, valid, definitions_of-open_edit_form ops stringify fresh laws model d s built same)
            (load_models-sent list s.page s.page_size _ ht)
    ]

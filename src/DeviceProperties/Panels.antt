-- ===== src/DeviceProperties/Panels.antt =====
-- The buttons of the panels of web/src/pages/Admin/DevicePropertyManagement.tsx that send commands,
-- and the input that the panel of services shows.
use linkflow_v.Prelude.{
  String, true, ◌||◌, ◌==◌, Option, none, some, List, [], ◌∷◌, ◌≡◌, refl, arith, eq_iff, Attempt,
  ok, thrown, if◌then◌else◌, inl, inr, ◌⊎◌, find, Bool-cases, subst, sym,
}
use linkflow_v.Js.Json.{Json, Fields, end}
use linkflow_v.Js.Number.{Numbers}
use linkflow_v.Services.Devices.{Device, set_device_properties, call_device_service}
use linkflow_v.ServiceInput.{service_input_params_to_record}
use linkflow_v.DeviceProperties.State.{
  DevicePropertyPage, Sent, properties_set, service_called, selected_device,
}
use linkflow_v.DeviceProperties.Commands.{
  is_reachable, can_set, can_call, handle_set_properties, handle_call_service, send_properties,
  send_call,
}

-- `serviceInputParamsToRecord`, or no input where it throws.
abbrev pub or_empty : {N : Type 0} → Attempt (Fields N) → Fields N
or_empty (ok input) = input
or_empty (thrown message) = end

-- The two buttons, with what they close over.
pub data Button (N : Type 0) : Type 0 where
  set_button : String → (String → Attempt (Json N)) → Button N
  call_button : Numbers N → (String → Attempt (Json N)) → Button N

selected_device-id :
    (id : String) (devices : List Device) (d : Device)
    → find (λ device. device.id == id) devices ≡ some d
    → d.id ≡ id
selected_device-id id [] d h = ground arith
selected_device-id id (x ∷ xs) d h = elim (Bool-cases (x.id == id)) [
  | inl p ↦ ground (arith, eq_iff x.id id)
  | inr p ↦ selected_device-id id xs d (ground arith)
]

-- The device that is chosen, which can be reached, where a button is enabled.
reached :
    (o : Option Device)
    → is_reachable o ≡ true
    → (d : Device) × (o ≡ some d) × (is_reachable (some d) ≡ true)
reached none h = ground arith
reached (some d) h = (d, refl, h)

module _ {N : Type 0} where
  abbrev pub generated_input :
      Numbers N → (String → Attempt (Json N)) → DevicePropertyPage N → Fields N
  generated_input ops parse s =
      or_empty (service_input_params_to_record ops parse s.service_input_params)

  -- The buttons, which do nothing while they are disabled.
  unfoldable pub press_send :
      String → (String → Attempt (Json N)) → DevicePropertyPage N → DevicePropertyPage N
  press_send must_object parse s =
      if can_set (selected_device s) s then handle_set_properties must_object parse s else s

  unfoldable pub press_call :
      Numbers N → (String → Attempt (Json N)) → DevicePropertyPage N → DevicePropertyPage N
  press_call ops parse s =
      if can_call (selected_device s) s then handle_call_service ops parse s else s

  unfoldable pub press : Button N → DevicePropertyPage N → DevicePropertyPage N
  unfolding press_send press_call
  press (set_button must_object parse) s = press_send must_object parse s
  press (call_button ops parse) s = press_call ops parse s

  -- A command to the device with the given id.
  pub data IsCommandTo (id : String) : Sent N → Type 0 where
    setting :
        (o : Fields N)
        → IsCommandTo id (properties_set (set_device_properties id (record { properties = o })))
    calling :
        (name : String) (o : Fields N)
        → IsCommandTo id (service_called (call_device_service id name (record { input = o })))

  -- The page sent nothing, or one command to the device.
  abbrev pub SendsAtMost : String → List (Sent N) → List (Sent N) → Type 0
  SendsAtMost id before after =
      (after ≡ before) ⊎ ((c : Sent N) × (after ≡ c ∷ before) × IsCommandTo id c)

  send_properties-sent :
      (a : Attempt (Fields N)) (s : DevicePropertyPage N)
      → SendsAtMost s.device_id s.sent (send_properties a s).sent
  send_properties-sent (thrown message) s = inl refl
  send_properties-sent (ok o) s = inr (_, refl, setting o)

  send_call-sent :
      (a : Attempt (Fields N)) (s : DevicePropertyPage N)
      → SendsAtMost s.device_id s.sent (send_call a s).sent
  send_call-sent (thrown message) s = inl refl
  send_call-sent (ok o) s = inr (_, refl, calling s.service_name o)

  handle_set_properties-sent :
      (must_object : String) (parse : String → Attempt (Json N)) (s : DevicePropertyPage N)
      → SendsAtMost s.device_id s.sent (handle_set_properties must_object parse s).sent
  unfolding handle_set_properties
  handle_set_properties-sent must_object parse s = elim (Bool-cases (s.device_id == "")) [
    | inl p ↦ rw p (inl refl)
    | inr p ↦ rw p (send_properties-sent _ s)
  ]

  handle_call_service-sent :
      (ops : Numbers N) (parse : String → Attempt (Json N)) (s : DevicePropertyPage N)
      → SendsAtMost s.device_id s.sent (handle_call_service ops parse s).sent
  unfolding handle_call_service
  handle_call_service-sent ops parse s =
      elim (Bool-cases (s.device_id == "" || s.service_name == "")) [
        | inl p ↦ rw p (inl refl)
        | inr p ↦ rw p (send_call-sent _ s)
      ]

  -- Nothing is sent, or a command to the device that is chosen, which can be reached.
  abbrev pub IsReachingSend : DevicePropertyPage N → List (Sent N) → Type 0
  IsReachingSend s after =
      (after ≡ s.sent)
      ⊎ ((d : Device) × (selected_device s ≡ some d)
          × (is_reachable (some d) ≡ true)
          × (c : Sent N) × (after ≡ c ∷ s.sent)
          × IsCommandTo d.id c)

  reaching :
      (s : DevicePropertyPage N) (after : List (Sent N))
      → is_reachable (selected_device s) ≡ true
      → SendsAtMost s.device_id s.sent after
      → IsReachingSend s after
  reaching s after h (inl same) = inl same
  reaching s after h (inr (c, added, command)) =
      let (d, chosen, r) = reached (selected_device s) h in
      inr (
        d,
        chosen,
        r,
        c,
        added,
        subst (λ id. IsCommandTo id c) (sym (selected_device-id s.device_id s.devices d chosen))
            command,
      )

  -- The buttons for setting properties and for calling a service send nothing or one command, and
  -- the command goes to the device of the list that is chosen, which is active and online.
  pub press-sent :
      (button : Button N) (s : DevicePropertyPage N) → IsReachingSend s (press button s).sent
  unfolding press press_send press_call
  press-sent (set_button must_object parse) s = elim (Bool-cases (can_set (selected_device s) s)) [
    | inl p ↦ rw p (reaching s _ (ground arith) (handle_set_properties-sent must_object parse s))
    | inr p ↦ rw p (inl refl)
  ]
  press-sent (call_button ops parse) s = elim (Bool-cases (can_call (selected_device s) s)) [
    | inl p ↦ rw p (reaching s _ (ground arith) (handle_call_service-sent ops parse s))
    | inr p ↦ rw p (inl refl)
  ]

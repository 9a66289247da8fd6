-- ===== src/DeviceProperties/TrendBounds.antt =====
-- Which properties the trend of web/src/pages/Admin/DevicePropertyManagement.tsx can have.
use linkflow_v.Prelude.{
  suc, ◌≤◌, String, Bool, true, false, not, ◌&&◌, Option, List, [], ◌∷◌, ◌++◌, map, ◌==◌, ◌≡◌, refl,
  arith, eq_iff, any, all, keep, take, leb, length, Bool-cases, inl, inr,
}
use linkflow_v.Services.Devices.{DeviceLatestProperties}
use linkflow_v.Services.ThingsModels.{ThingsModel}
use linkflow_v.DeviceProperties.Definitions.{DeviceTrendPropertyOption, trend_property_options_of}
use linkflow_v.DeviceProperties.State.{DevicePropertyPage}
use linkflow_v.DeviceProperties.Choose.{
  toggle_property, handle_trend_property_toggle, handle_device_change, handle_product_filter_change,
  handle_tenant_change,
}
use linkflow_v.DeviceProperties.Trend.{
  is_option, kept_or_first, same_names, keep_properties, trend_properties_effect,
}

abbrev pub distinct : List String → Bool
distinct [] = true
distinct (x ∷ xs) = not (any (λ y. y == x) xs) && distinct xs

-- At most eight properties, none twice.
abbrev pub IsSelection : List String → Type 0
IsSelection properties = (distinct properties ≡ true) × (length properties ≤ 8)

any-keep : (p q : String → Bool) (xs : List String) → any p xs ≡ false → any p (keep q xs) ≡ false
any-keep p q [] h = refl
any-keep p q (x ∷ xs) h = ground (arith, any-keep p q xs)

distinct-keep :
    (q : String → Bool) (xs : List String) → distinct xs ≡ true → distinct (keep q xs) ≡ true
distinct-keep q [] h = refl
distinct-keep q (x ∷ xs) h = ground (arith, distinct-keep q xs, any-keep (λ y. y == x) q xs)

length-keep-le : (q : String → Bool) (xs : List String) → length (keep q xs) ≤ length xs
length-keep-le q [] = omega arith
length-keep-le q (x ∷ xs) = ground (arith, length-keep-le q xs)

any-append_one :
    (p : String → Bool) (xs : List String) (x : String)
    → any p xs ≡ false
    → p x ≡ false
    → any p (xs ++ (x ∷ [])) ≡ false
any-append_one p [] x h k = ground arith
any-append_one p (y ∷ xs) x h k = ground (arith, any-append_one p xs x)

distinct-append_one :
    (xs : List String) (x : String)
    → distinct xs ≡ true
    → any (λ y. y == x) xs ≡ false
    → distinct (xs ++ (x ∷ [])) ≡ true
distinct-append_one [] x h k = refl
distinct-append_one (y ∷ xs) x h k =
    ground
      (arith, distinct-append_one xs x, any-append_one (λ z. z == y) xs x, eq_iff x y, eq_iff y x)

length-append_one : (xs : List String) (x : String) → length (xs ++ (x ∷ [])) ≡ suc (length xs)
length-append_one [] x = refl
length-append_one (y ∷ xs) x = ground (arith, length-append_one xs x)

toggle_property-IsSelection :
    (property : String) (current : List String)
    → IsSelection current
    → IsSelection (toggle_property property current)
unfolding toggle_property
toggle_property-IsSelection property current (d, l) =
    elim (Bool-cases (any (λ item. item == property) current)) [
      | inl chosen ↦ rw chosen (
        distinct-keep (λ item. not (item == property)) current d,
        omega (arith, length-keep-le (λ item. not (item == property)) current, l),
      )
      | inr other ↦ rw other (elim (Bool-cases (leb 8 (length current))) [
        | inl full ↦ rw full (d, l)
        | inr free ↦ rw free (
          distinct-append_one current property d other,
          ground (arith, length-append_one current property),
        )
      ])
    ]

keys_of : List DeviceTrendPropertyOption → List String
keys_of options = map (λ option. option.key) options

first_keys-IsSelection :
    (options : List DeviceTrendPropertyOption)
    → distinct (keys_of options) ≡ true
    → IsSelection (keys_of (take 2 options))
unfolding keys_of
first_keys-IsSelection [] h = (refl, omega arith)
first_keys-IsSelection (a ∷ []) h = (refl, omega arith)
first_keys-IsSelection (a ∷ c ∷ options) h = (ground arith, omega arith)

kept_or_first-IsSelection :
    (kept : List String) (options : List DeviceTrendPropertyOption)
    → IsSelection kept
    → distinct (keys_of options) ≡ true
    → IsSelection (kept_or_first kept options)
unfolding keys_of
kept_or_first-IsSelection [] options h k = first_keys-IsSelection options k
kept_or_first-IsSelection (property ∷ kept) options h k = h

keep_properties-IsSelection :
    (options : List DeviceTrendPropertyOption) (current : List String)
    → distinct (keys_of options) ≡ true
    → IsSelection current
    → IsSelection (keep_properties options current)
unfolding keep_properties
keep_properties-IsSelection options current h (d, l) =
    elim (Bool-cases (same_names (keep (is_option options) current) current)) [
      | inl same ↦ rw same (d, l)
      | inr fewer ↦ rw fewer (
          kept_or_first-IsSelection (keep (is_option options) current) options
            (
              distinct-keep (is_option options) current d,
              omega (arith, length-keep-le (is_option options) current, l),
            )
            h)
    ]

-- What changes the properties of the trend: the buttons of the properties, the three choices
-- above, and the effect after a change of the model or of the latest properties.
pub data TrendStep (N : Type 0) : Type 0 where
  toggles chooses_device chooses_product chooses_tenant : String → TrendStep N
  has_data : Option (ThingsModel N) → Option (DeviceLatestProperties N) → TrendStep N

module _ {N : Type 0} where
  unfoldable pub trend_step : TrendStep N → DevicePropertyPage N → DevicePropertyPage N
  trend_step (toggles property) s = handle_trend_property_toggle property s
  trend_step (chooses_device id) s = handle_device_change id s
  trend_step (chooses_product id) s = handle_product_filter_change id s
  trend_step (chooses_tenant id) s = handle_tenant_change id s
  trend_step (has_data model latest) s =
      trend_properties_effect (record s { current_model = model; latest_properties = latest })

  unfoldable pub trend_run : List (TrendStep N) → DevicePropertyPage N → DevicePropertyPage N
  trend_run [] s = s
  trend_run (e ∷ es) s = trend_run es (trend_step e s)

  -- The options of the data have distinct keys.
  abbrev pub has_keys : TrendStep N → Bool
  has_keys (toggles property) = true
  has_keys (chooses_device id) = true
  has_keys (chooses_product id) = true
  has_keys (chooses_tenant id) = true
  has_keys (has_data model latest) =
      distinct (map (λ option. option.key) (trend_property_options_of model latest))

  trend_step-IsSelection :
      (e : TrendStep N) (s : DevicePropertyPage N)
      → has_keys e ≡ true
      → IsSelection s.trend_properties
      → IsSelection (trend_step e s).trend_properties
  unfolding trend_step handle_trend_property_toggle handle_device_change
      handle_product_filter_change handle_tenant_change trend_properties_effect keys_of
  trend_step-IsSelection (toggles property) s h k =
      toggle_property-IsSelection property s.trend_properties k
  trend_step-IsSelection (chooses_device id) s h k = (refl, omega arith)
  trend_step-IsSelection (chooses_product id) s h k = (refl, omega arith)
  trend_step-IsSelection (chooses_tenant id) s h k = (refl, omega arith)
  trend_step-IsSelection (has_data model latest) s h k =
      keep_properties-IsSelection (trend_property_options_of model latest) s.trend_properties h k

  -- After any steps from a page with at most eight properties, none twice, the trend is asked for at
  -- most eight properties, none twice: whatever buttons are pressed, whatever device, product or
  -- tenant is chosen, and whatever the model and the latest properties are, if the keys of their
  -- options are distinct.
  pub trend_run-IsSelection :
      (es : List (TrendStep N)) (s : DevicePropertyPage N)
      → all has_keys es ≡ true
      → IsSelection s.trend_properties
      → IsSelection (trend_run es s).trend_properties
  unfolding trend_run
  trend_run-IsSelection [] s h k = k
  trend_run-IsSelection (e ∷ es) s h k =
      trend_run-IsSelection es (trend_step e s) (ground arith)
        (trend_step-IsSelection e s (ground arith) k)

-- ===== src/DeviceProperties/Trend.antt =====
-- The latest properties and their trend, in web/src/pages/Admin/DevicePropertyManagement.tsx: what is
-- read, each reading cut at its `await`, and which properties the trend has.
use linkflow_v.Prelude.{
  String, Bool, true, false, ◌||◌, ◌&&◌, none, some, List, [], ◌∷◌, map, ◌==◌, any, keep, take, eqb,
  length, if◌then◌else◌,
}
use linkflow_v.Answers.{Answer, answered, failed}
use linkflow_v.Services.Call.{◌⧺◌}
use linkflow_v.Services.Devices.{
  DeviceLatestProperties, DevicePropertyTrend, DevicePropertyTrendParams,
  get_device_latest_properties, get_device_property_trend,
}
use linkflow_v.DeviceProperties.Definitions.{DeviceTrendPropertyOption, trend_property_options_of}
use linkflow_v.DeviceProperties.State.{
  DevicePropertyTab, latest, history, set, services, event_history, property_set_history,
  service_history, DevicePropertyTrendAggregate, avg, min, max, last, DevicePropertyPage,
  latest_read, trend_read, notify_error,
}

-- `properties.join(',')`.
abbrev pub join_names : List String → String
join_names [] = ""
join_names (name ∷ []) = name
join_names (name ∷ next ∷ names) = name ⧺ ("," ⧺ join_names (next ∷ names))

abbrev pub aggregate_text : DevicePropertyTrendAggregate → String
aggregate_text avg = "avg"
aggregate_text min = "min"
aggregate_text max = "max"
aggregate_text last = "last"

-- The effect that keeps the chosen properties among the options: if none is left, the first two.
abbrev pub kept_or_first : List String → List DeviceTrendPropertyOption → List String
kept_or_first [] options = map (λ option. option.key) (take 2 options)
kept_or_first (property ∷ properties) options = property ∷ properties

abbrev pub is_option : List DeviceTrendPropertyOption → String → Bool
is_option options property = any (λ option. option.key == property) options

-- The two lists have the same length and the same items.
abbrev pub same_names : List String → List String → Bool
same_names [] [] = true
same_names [] (b ∷ bs) = false
same_names (a ∷ rest) [] = false
same_names (a ∷ rest) (b ∷ bs) = a == b && same_names rest bs

unfoldable pub keep_properties : List DeviceTrendPropertyOption → List String → List String
keep_properties options current =
    if same_names (keep (is_option options) current) current
    then current
    else kept_or_first (keep (is_option options) current) options

module _ {N : Type 0} where
  unfoldable pub trend_properties_effect : DevicePropertyPage N → DevicePropertyPage N
  trend_properties_effect s = record s {
    trend_properties =
        keep_properties (trend_property_options_of s.current_model s.latest_properties)
          s.trend_properties;
  }

  unfoldable pub load_latest_properties :
      String → Bool → DevicePropertyPage N → DevicePropertyPage N
  load_latest_properties next_device_id silent s =
      if next_device_id == "" then record s { latest_properties = none } else record s {
        loading_latest = if silent then s.loading_latest else true;
        sent = latest_read (get_device_latest_properties next_device_id) ∷ s.sent;
      }

  abbrev pub latest_or :
      Bool → Bool → Answer (DeviceLatestProperties N) → DevicePropertyPage N → DevicePropertyPage N
  latest_or silent true a s = s
  latest_or silent false (answered r) s = record s { latest_properties = some r }
  latest_or silent false (failed e) s =
      if silent then s else notify_error "adminDevicePropertyLatestFailed" e s

  unfoldable pub latest_loaded :
      Bool → Bool → Answer (DeviceLatestProperties N) → DevicePropertyPage N → DevicePropertyPage N
  latest_loaded silent cancelled a s =
      let s' = latest_or silent cancelled a s in
      if silent then s' else record s' { loading_latest = false }

  -- The end of the effect.
  unfoldable pub latest_effect_loaded :
      Bool → Answer (DeviceLatestProperties N) → DevicePropertyPage N → DevicePropertyPage N
  latest_effect_loaded true a s = s
  latest_effect_loaded false a s = record (latest_or false false a s) { loading_latest = false }

  abbrev pub trend_or :
      Bool → Bool → Answer (DevicePropertyTrend N) → DevicePropertyPage N → DevicePropertyPage N
  trend_or silent true a s = s
  trend_or silent false (answered r) s = record s { trend = some r }
  trend_or silent false (failed e) s =
      if silent then s else notify_error "adminDevicePropertyTrendFailed" e s

  unfoldable pub trend_loaded :
      Bool → Bool → Answer (DevicePropertyTrend N) → DevicePropertyPage N → DevicePropertyPage N
  trend_loaded silent cancelled a s =
      let s' = trend_or silent cancelled a s in
      if silent then s' else record s' { loading_trend = false }

  unfoldable pub trend_effect_loaded :
      Bool → Answer (DevicePropertyTrend N) → DevicePropertyPage N → DevicePropertyPage N
  trend_effect_loaded true a s = s
  trend_effect_loaded false a s = record (trend_or false false a s) { loading_trend = false }

  -- `to_iso` is `dateTimeLocalToISOString`, which gives the empty text for no date.
  module _ (to_iso : String → String) where
    abbrev pub trend_params : DevicePropertyPage N → DevicePropertyTrendParams
    trend_params s = record {
      properties = join_names s.trend_properties;
      from = to_iso s.trend_range.from;
      to = to_iso s.trend_range.to;
      bucket_seconds = s.trend_bucket_seconds;
      agg = aggregate_text s.trend_aggregate;
    }

    abbrev pub no_range : DevicePropertyPage N → Bool
    no_range s = to_iso s.trend_range.from == "" || to_iso s.trend_range.to == ""

    unfoldable pub load_property_trend : String → Bool → DevicePropertyPage N → DevicePropertyPage N
    load_property_trend next_device_id silent s =
        if next_device_id == "" || eqb (length s.trend_properties) 0
        then record s { trend = none }
        else if no_range s
        then record s { trend = none }
        else record s {
          loading_trend = if silent then s.loading_trend else true;
          sent = trend_read (get_device_property_trend next_device_id (trend_params s)) ∷ s.sent;
        }

    -- The effect of the trend: without a range it ends at once.
    unfoldable pub read_trend_on : DevicePropertyTab → DevicePropertyPage N → DevicePropertyPage N
    read_trend_on history s =
        if s.device_id == "" || eqb (length s.trend_properties) 0
        then record s { trend = none }
        else if no_range s
        then record s { trend = none; loading_trend = false }
        else record s {
          loading_trend = true;
          sent = trend_read (get_device_property_trend s.device_id (trend_params s)) ∷ s.sent;
        }
    read_trend_on latest s = s
    read_trend_on set s = s
    read_trend_on services s = s
    read_trend_on event_history s = s
    read_trend_on property_set_history s = s
    read_trend_on service_history s = s

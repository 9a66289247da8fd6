-- ===== src/DeviceProperties/Chart.antt =====
-- The data and the drawing of the trend's chart in web/src/pages/Admin/DevicePropertyManagement.tsx.
-- `time_of` is `new Date(text).getTime()`; the drawing itself is third-party.
use linkflow_v.Prelude.{
  ℕ, suc, ◌+◌, String, ◌&&◌, Option, none, some, List, [], ◌∷◌, ◌++◌, map, keep, length, eqb,
  if◌then◌else◌,
}
use linkflow_v.Js.Number.{Numbers}
use linkflow_v.Services.Devices.{
  DevicePropertyTrend, DevicePropertyTrendPoint, DevicePropertyTrendSeries,
}
use linkflow_v.DeviceProperties.Definitions.{DeviceTrendPropertyOption, trend_series_label}
use linkflow_v.DeviceProperties.State.{DevicePropertyTrendAggregate, avg, min, max, last}

-- The key of the label of an aggregate.
abbrev pub aggregate_label : DevicePropertyTrendAggregate → String
aggregate_label min = "adminDevicePropertyTrendAggregateMin"
aggregate_label max = "adminDevicePropertyTrendAggregateMax"
aggregate_label last = "adminDevicePropertyTrendAggregateLast"
aggregate_label avg = "adminDevicePropertyTrendAggregateAvg"

-- A point with its series and its time, and a line of the chart.
pub record PlacedPoint (N : Type 0) : Type 0 where
  pub point : DevicePropertyTrendPoint N
  pub property : String
  pub time : N

pub record Line (N : Type 0) : Type 0 where
  pub name : String
  pub points_of : List (PlacedPoint N)

module _ {N : Type 0} where
  abbrev pub series_of : Option (DevicePropertyTrend N) → List (DevicePropertyTrendSeries N)
  series_of none = []
  series_of (some trend) = trend.series

  abbrev pub count_points : List (DevicePropertyTrendSeries N) → ℕ
  count_points [] = 0
  count_points (series ∷ others) = length series.points + count_points others

  abbrev pub point_count : Option (DevicePropertyTrend N) → ℕ
  point_count trend = count_points (series_of trend)

  module _ (ops : Numbers N) (time_of : String → N) where
    abbrev pub place : String → DevicePropertyTrendPoint N → PlacedPoint N
    place property point = record {
      point = point;
      property = property;
      time = time_of point.bucket_at;
    }

    abbrev pub placed : List (DevicePropertyTrendSeries N) → List (PlacedPoint N)
    placed [] = []
    placed (series ∷ others) = map (place series.property) series.points ++ placed others

    abbrev pub all_points : Option (DevicePropertyTrend N) → List (PlacedPoint N)
    all_points trend = placed (series_of trend)

    abbrev pub valid_points : Option (DevicePropertyTrend N) → List (PlacedPoint N)
    valid_points trend =
        keep (λ p. ops.is_finite p.time && ops.is_finite p.point.value) (all_points trend)

    abbrev pub lines_of :
        List DeviceTrendPropertyOption → Option (DevicePropertyTrend N) → List (Line N)
    lines_of property_options trend =
        map
          (λ series. record {
            name = trend_series_label series.property property_options;
            points_of = map (place series.property) series.points;
          })
          (series_of trend)

-- The element of the chart in the document, and the element that the chart's instance draws on.
-- Elements are numbered in the order in which they are made.
pub record Chart : Type 0 where
  pub chart_ref : Option ℕ
  pub chart_instance_ref : Option ℕ
  pub made : ℕ

abbrev pub no_chart : Chart
no_chart = record { chart_ref = none; chart_instance_ref = none; made = 0 }

-- The render: without valid points another element takes the place of the chart's.
abbrev pub element_for : ℕ → Chart → Chart
element_for valid_count c = elim c.chart_ref [
  | none ↦ if eqb valid_count 0 then c else record c { chart_ref = some c.made; made = suc c.made }
  | some element ↦ if eqb valid_count 0 then record c { chart_ref = none } else c
]

-- `chartInstanceRef.current ?? initECharts(chartRef.current)`.
abbrev pub instance_or : Option ℕ → Option ℕ → Option ℕ
instance_or (some element) chart_ref = some element
instance_or none chart_ref = chart_ref

unfoldable pub render_chart : ℕ → Chart → Chart
render_chart valid_count c =
    let c' = element_for valid_count c in
    if eqb valid_count 0
    then c'
    else record c' { chart_instance_ref = instance_or c'.chart_instance_ref c'.chart_ref }

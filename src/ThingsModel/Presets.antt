-- ===== src/ThingsModel/Presets.antt =====
-- The ready-made definitions of web/src/pages/Admin/ThingsModelManagement.tsx: their form. A
-- number in the source is the number that its text reads as.
pub mod Properties
pub mod Events
pub mod Services
mod Examples
use linkflow_v.Prelude.{String, true, false, List, [], ◌∷◌}
use linkflow_v.Js.Json.{Json, num, str, obj, Fields, end, field}
use linkflow_v.Js.Number.{Numbers}

pub record DefinitionPreset (N : Type 0) : Type 0 where
  pub label_key : String
  pub template : Fields N

infix 70 ◌⇒◌
abbrev pub ◌⇒◌ : {N : Type 0} → String → Json N → String × Json N
key ⇒ value = (key, value)

abbrev pub fields : {N : Type 0} → List (String × Json N) → Fields N
fields [] = end
fields (e ∷ rest) = field e.0 e.1 (fields rest)

abbrev pub object : {N : Type 0} → List (String × Json N) → Json N
object es = obj (fields es)

abbrev pub number : {N : Type 0} → Numbers N → String → Json N
number ops text = num (ops.of_text text)

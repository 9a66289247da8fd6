-- ===== src/ThingsModel.antt =====
-- The things-model editor: web/src/pages/Admin/ThingsModelManagement.tsx. A definition of a
-- property, an event or a service is edited as a row of texts and sent as a JSON object.
pub mod Types
pub mod Build
pub mod Read
pub mod Rows
pub mod RoundTrip
pub mod Editor
pub mod Presets
pub mod Merge
mod Examples

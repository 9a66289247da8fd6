-- ===== src/DeviceProperties.antt =====
-- The page of a device: its latest properties, their trend, its histories, the services it offers and
-- the properties that can be set: web/src/pages/Admin/DevicePropertyManagement.tsx.
pub mod Definitions
pub mod Inputs
pub mod Defaults
pub mod State
pub mod Choose
pub mod Histories
pub mod HistoryEffects
pub mod Readings
pub mod Trend
pub mod Commands
pub mod Live
pub mod EventList
pub mod TrendBounds
pub mod Deliveries
pub mod Chart
pub mod Panels
mod Examples

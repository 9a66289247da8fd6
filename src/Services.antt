-- ===== src/Services.antt =====
-- The services of web/src/services: the types of the backend's interface and the requests.
pub mod Call
pub mod ThingsModels
pub mod Devices
pub mod Products
pub mod Tenants
pub mod AuditLogs
pub mod Auth

-- ===== src/ThingsModel/RoundTrip.antt =====
-- Opening a definition in the editor of web/src/pages/Admin/ThingsModelManagement.tsx and building
-- it again.
pub mod Rows
pub mod Spec
pub mod Params
pub mod Objects
pub mod Alike

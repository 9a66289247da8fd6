-- ===== src/Stores.antt =====
-- The zustand stores of web/src/stores: interface preferences, the session and the event inbox.
pub mod AdminUi
pub mod Auth
pub mod EventInbox

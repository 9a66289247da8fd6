-- ===== src/Js.antt =====
-- What the console uses of JavaScript itself: text, numbers, JSON values and plain objects.
pub mod Json
pub mod Text
pub mod Object
pub mod Number
pub mod Samples

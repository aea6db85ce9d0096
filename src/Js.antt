-- ===== src/Js.antt =====
-- What the services use of JavaScript itself: texts, numbers, values, JSON and regular expressions.
pub mod Text
pub mod Number
pub mod Value
pub mod Json
pub mod Regex

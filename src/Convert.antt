-- ===== src/Convert.antt =====
-- Values that cross between JavaScript and C++: atom/common/native_mate_converters/v8_value_converter.cc
-- and value_converter.cc.
pub mod Values
pub mod FromV8
pub mod ToV8
pub mod Depth
pub mod Once
pub mod Visits
pub mod Built
pub mod Making
pub mod Sendable
pub mod Reading
pub mod RoundTrip
mod Tests

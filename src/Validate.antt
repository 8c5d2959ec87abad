-- ===== src/Validate.antt =====
-- `lur.validate` (src/capabilities/validate.rs): schemas, and the check of a value against one.
pub mod Value
pub mod Schema
pub mod Issues
pub mod Scalar
pub mod Message
pub mod Order
pub mod Check
pub mod Conforms
mod Tests

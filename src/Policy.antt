-- ===== src/Policy.antt =====
-- rust/src/lib/policy: rules that capture parts of the current state, and the template of a desired
-- state that refers to what they captured.
pub mod Json
pub mod Token
pub mod Capture
pub mod Template
pub mod Selection

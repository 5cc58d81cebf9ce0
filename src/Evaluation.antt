-- ===== src/Evaluation.antt =====
-- The evaluation of a config against a context, of configdirector/_evaluation.
pub mod Types
pub mod Text
pub mod Numeric
pub mod Semver
pub mod Date
pub mod Pointer
pub mod Condition
pub mod Rapidhash
pub mod Percent
pub mod Config

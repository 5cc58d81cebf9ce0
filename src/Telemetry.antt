-- ===== src/Telemetry.antt =====
-- The collection and reporting of evaluations of configdirector/_telemetry.
pub mod Counting
pub mod EventQueue
pub mod ContextRegistry
pub mod InvalidContexts
pub mod ValueId
pub mod Events
pub mod Wire
pub mod Reporter
pub mod Collector

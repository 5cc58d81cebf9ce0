-- ===== src/Tests.antt =====
-- Concrete runs of the model, and each theorem at an input.
mod EventSource
mod Telemetry
mod Evaluation
mod Client
mod Bundle
mod Values
mod InMemory
mod Worker
mod Transport
mod Collector
mod Offline
mod Evaluated
mod OpenFeature

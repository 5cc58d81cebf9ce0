-- ===== src/EventSource.antt =====
-- The server-sent events client of configdirector/_eventsource.
pub mod Parser
pub mod Worker

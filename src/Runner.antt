-- ===== src/Runner.antt =====
-- The Go package `runner`: the configuration of a run, the requester with its workers, the providers
-- of messages and the reporter.
pub mod Config
pub mod Options
pub mod Requester
pub mod Messages
pub mod Reporter
pub mod Calls
pub mod Payloads
pub mod Provider
pub mod Session
pub mod Reason
pub mod CallData
pub mod Duration

-- ===== src/Examples.antt =====
-- Concrete inputs at which the theorems are applied.
mod Tickers
mod Pacers
mod Runs
mod Streams
mod Reports
mod Configs
mod Calls
mod Files
mod Streaming
mod Data
mod Sessions
mod Lookups
mod Printers
mod Shutdowns
mod Handlers

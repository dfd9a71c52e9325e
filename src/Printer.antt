-- ===== src/Printer.antt =====
-- The Go package `printer`: the report as text, as lines and metrics, and in files.
pub mod Influx
pub mod Prometheus
pub mod Text
pub mod Formats
pub mod Values

-- ===== src/Runner/Options.antt =====
-- runner/options.go, the options of a run, by their place in the file, and what holds of them.
pub mod Basic
pub mod More
pub mod Rest
pub mod New
pub mod Valid
pub mod File
pub mod Loaded
pub mod Load

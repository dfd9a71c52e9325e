-- ===== src/Load.antt =====
-- The Go package `load`: worker tickers, which set how many workers run, and pacers, which set when
-- the next request is sent.
pub mod Ticker
pub mod Pacer

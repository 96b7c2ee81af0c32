-- ===== src/Query.antt =====
-- internal/query: what the read handlers decide before they ask ClickHouse.
pub mod Sql
pub mod Db
pub mod Times
pub mod Replay
pub mod Errors
pub mod Synthetics
pub mod Alerts
pub mod Slos
pub mod Diagnostics
pub mod ServiceMap
pub mod Traces
mod Statements
mod Readings
mod Maps
pub mod Tiers
pub mod Numbers
pub mod Pages
pub mod Facets
pub mod Intervals
mod Tests

-- ===== src/Eventlog.antt =====
-- internal/eventlog: the usage accumulator, the event summaries and the security log.
pub mod Values
pub mod Usage
pub mod Summary
pub mod Security
pub mod Writer
pub mod Reporter
pub mod Geo
pub mod Numbers

-- ===== src/Tests.antt =====
-- The theorems at concrete inputs.
mod Backend
mod Cache
mod Front
mod Lease
mod Names
mod Runs
mod Routing
mod Fanout
mod Release
mod Worker
mod Schemas
mod Warm
mod Schedule

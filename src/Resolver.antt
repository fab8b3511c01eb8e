-- ===== src/Resolver.antt =====
-- tenants/resolver: the snapshot cache, the host registry, the throttle and the resolve policy.
pub mod Batch
pub mod Snapshot
pub mod Store
pub mod Cache
pub mod Throttle
pub mod Registry
pub mod Service
pub mod Warm

-- ===== src/Migrator.antt =====
-- tenants/migrator.py: the tenant migrator. The children model its errors, the tables of the
-- `default` database that it writes, the lease, and the two migration algorithms.
pub mod Errors
pub mod Db
pub mod Lease
pub mod Env
pub mod Release
pub mod Reactivation
pub mod Run

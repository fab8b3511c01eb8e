-- ===== src/Migrator/Run.antt =====
-- tenants/migrator.py: `_migrate_tenant` with its two algorithms, and `_migrate_shared`.
pub mod Result
pub mod Provision
pub mod Upgrade
pub mod Tenant
pub mod Shared
pub mod Fence
pub mod Try
pub mod Safety
pub mod Locked
pub mod Served
pub mod Released

-- ===== src/Schemas.antt =====
-- tenants/management/commands/migrate_schemas.py: the command that migrates every tenant. Its
-- entries, its scheduler, and the two ways it runs them.
pub mod Entries
pub mod Queue
pub mod Stage
pub mod Pool
pub mod Sequential
pub mod Options
pub mod Command

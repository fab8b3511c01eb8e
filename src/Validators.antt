-- ===== src/Validators.antt =====
-- tenants/validators.py and the reserved-host rules of tenants/models.py.
pub mod Schema
pub mod Host
pub mod Rules

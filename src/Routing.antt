-- ===== src/Routing.antt =====
-- tenants/context.py, tenants/middleware.py and tenants/routers.py: which database and which schema
-- the code of a request or a task meets.
pub mod Context
pub mod Gate
pub mod Middleware
pub mod Router

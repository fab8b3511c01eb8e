-- ===== src/Tasks.antt =====
-- tenants/celery/task.py and tenants/celery/cache.py: in which tenant's context a worker runs a task.
pub mod Local
pub mod Worker

-- ===== src/Fanout.antt =====
-- tenants/celery/dispatch.py and tenants/models.py, TaskRun: which tenants a scheduled task is sent
-- for, in which batches, and the watermark of what was sent.
pub mod Watermark
pub mod Due
pub mod Dispatch
pub mod Schedule

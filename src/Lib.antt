-- ===== src/Lib.antt =====
-- Models and theorems of the multi-tenant back end: a Django project whose tenants each own a
-- PostgreSQL schema on one of several shards, with the registry of tenants on the database
-- `default`. The program's parts are: the names and hosts of tenants (tenants/validators.py,
-- tenants/models.py); the resolver, which finds the tenant of a host through a cache, a gate and
-- throttles (tenants/resolver/); the routing, which puts each request on the tenant's shard and
-- schema (tenants/middleware.py, tenants/context.py, tenants/routers.py); the migrator, which
-- provisions and upgrades tenants under a lease (tenants/migrator.py); the fanout, which sends
-- scheduled tasks for each tenant (commons/platform/beat.py, tenants/celery/dispatch.py); the tasks,
-- which a worker runs in the context of their tenant (tenants/celery/task.py); and the command
-- migrate_schemas, which runs the migrator over all tenants, one by one or in a pool of processes
-- (tenants/management/commands/migrate_schemas.py). The middleware resolves a host with
-- the resolver and routes by the snapshot that it gets; the migrator and the console invalidate the
-- resolver's cache; the migrator, the console and the command migration_lease meet at the lease.
--
-- Base: shared names, texts as lists of code points, str methods (Chars), and Exec, code that
-- changes a state and may raise, with Keeps (invariants) and Ensures (results).
-- Validators: Schema is normalize_schema_name, validate_schema_name, quote_schema; Host is
-- normalize_host, validate_hostname, validate_label; Rules is ReservedHostRule.normalize, matches
-- and candidates_q with validate_tenant_domain.
-- Resolver: Snapshot is TenantSnapshot with dump and load; Store is the interface of the cache
-- backend, a record of operations and laws; Cache is ResolveCache with its reads, put, store_miss
-- and forget family, Sweep its sweep_orphans; Throttle is FillCap and the local bucket; Registry is
-- HostRegistry.check, update and trigger_warm; Batch is put_many and put_schema_many; Warm is
-- run_locked, reconcile and _rebuild_once; Service is resolve with its policy.
-- Routing: Context is use_alias, tenant_context, schema_context over an interface of the
-- django-tenants connection; Gate is ShardAwareTenantMiddleware.process_request; Middleware is
-- TenantShardRoutingMiddleware; Router is TenantDatabaseRouter.
-- Migrator: Errors is the classification of exceptions; Db has the rows; Lease the SQL of the lease
-- and the status compare-and-set; Env is what the migrator asks of its surroundings and Steps its
-- helpers; Run.Provision, Run.Upgrade, Run.Tenant and Run.Shared are _provision, _upgrade,
-- _migrate_tenant and _migrate_shared; Release is the command migration_lease;
-- Reactivation is check_reactivation.
-- Fanout: Schedule is scoped_schedule of commons/platform/beat.py; Watermark is TaskRun; Due is
-- _due_by_tenant_tz; Dispatch is fanout_dispatch and sub_dispatch.
-- Tasks: Local is SimpleCache of tenants/celery/cache.py; Worker is TenantTask.
-- Schemas: Entries is Target, Entry, Stop and exit_code of migrate_schemas.py; Queue is pick_next
-- with its queues and Counters; Stage is TenantStage; Pool is _run_parallel with _collect and
-- _finish, over a world that ends futures in any order; Sequential is _run_sequential; Options is
-- _validate; Command is _select_targets, _recheck_locked, _settle, the end of handle, and snapshot
-- of tenants/migrator.py.
--
-- A `try` is `catch` or `finally`; a `with` block is a function of its body; a statement of SQL is
-- one step on the tables. What other processes do between two statements is a field of Env that may
-- change the tables, or a sequence of steps. Time is a natural number in the unit that each file
-- names. Log lines and the wording of messages are left out. Django, django-tenants, celery, redis,
-- croniter, ZoneInfo and the Unicode tables are parameters, with what they promise as laws of a
-- record or as hypotheses.
-- Fuel: the slices of a wave run on the length of the list, enough because each slice takes one
-- element at least; the sequential loop of migrate_schemas runs on one more than the number of
-- targets, enough because each turn ends one, and the inner loop of the parallel one on one more than
-- what is queued. How many turns the parallel loop takes depends on how often its waits time out;
-- Schemas/Pool/Polls.antt finds the number where each future ends. All else is structural.
--
-- Not modelled: the console's views and the admin forms, the signal handlers, log files and summary
-- of migrate_schemas, the order in which `_run` joins its stages, the other management commands,
-- the celery application, the threads of single_flight, system checks, settings, the
-- authentication, the business apps, scripts and deployment files: glue over Django, pure input and
-- output, or code beside the parts named above. Cyclic chains of exceptions, which _chain cuts off,
-- are not represented.
pub mod Base
pub mod Validators
pub mod Resolver
pub mod Migrator
pub mod Routing
pub mod Fanout
pub mod Tasks
pub mod Schemas
mod Tests

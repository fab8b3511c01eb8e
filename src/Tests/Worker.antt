-- ===== src/Tests/Worker.antt =====
-- A task for a tenant whose cache entries were just invalidated, on a worker with a stale entry.
use mt_shards_back_test.Base.{refl, some, Text, codes, [], ◌∷◌, text_eq}
use mt_shards_back_test.Base.Exec.{pure}
use mt_shards_back_test.Base.Exec.Keeps.{Keeps-throw}
use mt_shards_back_test.Resolver.Snapshot.{TenantSnapshot, tombstone}
use mt_shards_back_test.Resolver.Cache.{get_schema_snapshot, schema_snap_key, enabled}
use mt_shards_back_test.Routing.Context.{raised}
use mt_shards_back_test.Tasks.Local.{Entry}
use mt_shards_back_test.Tasks.Worker.{Worker, Task, call}
use mt_shards_back_test.Tasks.Worker.Laws.{Ran, held, call_lem}
use mt_shards_back_test.Tests.Backend.{Table, table, find}
use mt_shards_back_test.Tests.Cache
use mt_shards_back_test.Tests.Routing.{Connection, backend, public_name, conn, axes, acme, view}

abbrev moved : TenantSnapshot
moved = record acme { shard = record { id = 3; alias = codes "shard3" } }

abbrev stale : Entry TenantSnapshot
stale = record { key = codes "acme"; value = acme; expires_at = 900 }

abbrev worker : Worker Connection Table
worker = record {
  axes = axes;
  local = stale ∷ [];
  shared = (schema_snap_key (codes "acme"), tombstone) ∷ [];
  now = 500;
}

abbrev database : Text → Task backend table Cache.settings TenantSnapshot
database schema = pure moved

call_example :
    Ran backend table Cache.settings database 60
      (codes "acme")
      moved
      public_name
      worker
      view
      (call backend table Cache.settings database 60 (some (codes "acme")) view worker)
unfolding text_eq find get_schema_snapshot enabled pure schema_snap_key
call_example =
    call_lem backend table Cache.settings database 60 97 (codes "cme") moved view conn worker refl
      refl (held refl refl) refl refl (λ d. refl) (Keeps-throw (raised 5))

-- ===== src/Migrator/Run/Shared.antt =====
-- tenants/migrator.py, `_migrate_shared`: public on `default`, under lease key 0.
use mt_shards_back_test.Base.{
  Bool, true, false, ◌&&◌, ◌||◌, Option, none, some, codes, if◌then◌else◌,
}
use mt_shards_back_test.Base.Exec.{Outcome, pure, gets, finally, ◌>>=◌, ◌>>◌}
use mt_shards_back_test.Migrator.Errors.{Exn, Kind, Chain, is_conn_error, is_lock_timeout}
use mt_shards_back_test.Migrator.Env.{Env, Act, RunOptions}
use mt_shards_back_test.Migrator.Env.Steps.{Refusal, lease_acquire}
use mt_shards_back_test.Migrator.Run.Result.{
  ResultKind, Reason, Side, Result, r, lost_conn, try_then, rethrow,
}
use mt_shards_back_test.Migrator.Run.Tenant.{release_quietly, finished}

-- `lease_table` is the to_regclass query of _lease_table_exists.
module _ (e : Env) (lease_table : Act Bool) (opts : RunOptions) where
  unfoldable pub shared_failed : Kind → Chain → Act Result
  shared_failed k c =
      if is_conn_error c
      then pure (lost_conn Side.default)
      else pure (
          r ResultKind.failed
            (if is_lock_timeout c then Reason.lock_timeout else Reason.migration_error))

  unfoldable pub leave_shared : Bool → Outcome Exn Result → Act (Unit {0})
  leave_shared leased outcome = do
    idle ← gets (e.shard_idle (codes "default"))
    e.close_shard (codes "default")
    if leased && (finished e 0 opts outcome || idle) then release_quietly e 0 opts else pure tt

  unfoldable pub run_shared : Bool → Act Result
  unfolding shared_failed leave_shared
  run_shared leased =
      finally
        (try_then
          (do
            e.open_shard (codes "default") 0
            e.run_migrations (codes "default") (codes "public") opts)
          shared_failed (λ _. pure (r ResultKind.ok Reason.applied)))
        (leave_shared leased)

  unfoldable pub busy_failed : Kind → Chain → Act Result
  busy_failed Kind.shard_unavailable c = pure (lost_conn Side.default)
  busy_failed k c = if is_conn_error c then pure (lost_conn Side.default) else rethrow k c

  unfoldable pub shared_held : Option Refusal → Act Result
  unfolding run_shared
  shared_held (some held) = pure (r ResultKind.failed Reason.locked)
  shared_held none = run_shared true

  unfoldable pub with_table : Bool → Act Result
  unfolding shared_held busy_failed
  with_table true = try_then (lease_acquire e 0 (codes "default")) busy_failed shared_held
  with_table false = run_shared false

  unfoldable pub migrate_shared : Act Result
  unfolding with_table
  migrate_shared = try_then (e.link >> lease_table) busy_failed with_table

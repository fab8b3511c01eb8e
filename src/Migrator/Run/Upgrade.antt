-- ===== src/Migrator/Run/Upgrade.antt =====
-- tenants/migrator.py, `_upgrade`: the migrations of a tenant that is served, or of one under
-- maintenance with --maintenance.
use mt_shards_back_test.Base.{
  ℕ, Bool, true, false, Option, none, some, List, [], ◌∷◌, Text, if◌then◌else◌,
}
use mt_shards_back_test.Base.Exec.{pure, ◌>>=◌, ◌>>◌}
use mt_shards_back_test.Migrator.Db.{TenantRow, Status, LastError, status_eq}
use mt_shards_back_test.Migrator.Errors.{Kind, Chain, is_conn_error}
use mt_shards_back_test.Migrator.Env.{Env, Act, RunOptions}
use mt_shards_back_test.Migrator.Env.Steps.{targeted, cas, forget, pending_plan}
use mt_shards_back_test.Migrator.Run.Result.{
  ResultKind, Reason, Side, Result, r, lost_conn, try_then, cas_lost, failure,
}
use mt_shards_back_test.Migrator.Run.Provision.{to_failed}

module _ (e : Env) (pk : ℕ) (t : TenantRow) where
  unfoldable pub upgrade_failed : Side → Kind → Chain → Act Result
  upgrade_failed side k c = if is_conn_error c then pure (lost_conn side) else failure e t k c

  unfoldable pub missing_written : Bool → Act Result
  missing_written false = cas_lost e pk
  missing_written true = do forget e pk; pure (r ResultKind.failed Reason.schema_missing)

  -- plan is MISSING, side = "default".
  unfoldable pub missing_schema : Act Result
  unfolding missing_written upgrade_failed
  missing_schema =
      if status_eq t.status Status.maintenance
      then pure (r ResultKind.failed Reason.schema_missing)
      else try_then
          (do
            written ← cas e pk (t.status ∷ []) (to_failed t.status LastError.schema_missing_text)
            missing_written written)
          (upgrade_failed Side.default) pure

  -- The migrations themselves, side = "shard".
  unfoldable pub run_upgrade : RunOptions → Act Result
  unfolding upgrade_failed
  run_upgrade opts =
      try_then
        (do
          e.open_shard t.alias pk
          e.run_migrations t.alias t.schema_name opts
          if targeted opts
              then (do remaining ← pending_plan e t; pure (r ResultKind.ok Reason.targeted))
              else pure (r ResultKind.ok Reason.applied))
        (upgrade_failed Side.shard) pure

  unfoldable pub with_plan : RunOptions → Option (List (Text × Text)) → Act Result
  unfolding missing_schema run_upgrade
  with_plan opts none = missing_schema
  with_plan opts (some []) =
      if targeted opts then run_upgrade opts else pure (r ResultKind.noop Reason.up_to_date)
  with_plan opts (some (m ∷ ms)) = run_upgrade opts

  unfoldable pub upgrade : RunOptions → Act Result
  unfolding with_plan upgrade_failed
  upgrade opts = try_then (pending_plan e t) (upgrade_failed Side.shard) (with_plan opts)

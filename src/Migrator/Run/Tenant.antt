-- ===== src/Migrator/Run/Tenant.antt =====
-- tenants/migrator.py, `_migrate_tenant`: the gate, the shortcut, the lease, and the release.
use mt_shards_back_test.Base.{
  ℕ, Bool, true, false, not, ◌&&◌, ◌||◌, Option, none, some, List, [], ◌∷◌, Text, if◌then◌else◌,
}
use mt_shards_back_test.Base.Exec.{Outcome, ok, raise, pure, gets, catch, finally, ◌>>=◌, ◌>>◌}
use mt_shards_back_test.Migrator.Db.{TenantRow, status_in}
use mt_shards_back_test.Migrator.Errors.{Exn, Kind, Chain, is_conn_error}
use mt_shards_back_test.Migrator.Env.{Env, Act, RunOptions}
use mt_shards_back_test.Migrator.Env.Steps.{
  provisionable, targeted, except_exception, Refusal, lease_acquire, release, load, pending_plan,
}
use mt_shards_back_test.Migrator.Run.Result.{
  ResultKind, Reason, Side, Result, r, lost_conn, try_then, gate, upgradable, failure, rethrow,
}
use mt_shards_back_test.Migrator.Run.Provision.{provision}
use mt_shards_back_test.Migrator.Run.Upgrade.{upgrade}

module _ (e : Env) (pk : ℕ) (opts : RunOptions) where
  unfoldable pub dispatch_ungated : TenantRow → Act Result
  dispatch_ungated t =
      if status_in t.status provisionable
      then provision e pk t opts
      else if upgradable opts t
      then upgrade e pk t opts
      else pure (r ResultKind.skipped Reason.status_changed)

  unfoldable pub dispatch : TenantRow → Act Result
  unfolding dispatch_ungated
  dispatch t = elim (gate opts t) [ some gated ↦ pure gated | none ↦ dispatch_ungated t ]

  unfoldable pub reload_failed : Kind → Chain → Act Result
  reload_failed Kind.tenant_missing c = pure (r ResultKind.skipped Reason.tenant_deleted)
  reload_failed k c =
      if is_conn_error c
      then pure (lost_conn Side.default)
      else pure (r ResultKind.failed Reason.migration_error)

  -- `try: lease_release` with `except Exception` that only logs
  unfoldable pub release_quietly : Act (Unit {0})
  unfolding except_exception
  release_quietly = catch (release e pk >>= λ _. pure tt) (except_exception (λ k c. pure tt))

  abbrev pub finished : Outcome Exn Result → Bool
  finished (ok _) = true
  finished (raise _) = false

  -- The `finally` clause: the shard first, then the lease.
  unfoldable pub leave : TenantRow → Outcome Exn Result → Act (Unit {0})
  unfolding release_quietly
  leave t outcome = do
    idle ← gets (e.shard_idle t.alias)
    e.close_shard t.alias
    if finished outcome || idle then release_quietly else pure tt

  unfoldable pub under_lease : TenantRow → Act Result
  unfolding dispatch reload_failed leave
  under_lease t = finally (try_then (load e pk) reload_failed dispatch) (leave t)

  unfoldable pub acquire_failed : Kind → Chain → Act Result
  acquire_failed Kind.shard_unavailable c = pure (lost_conn Side.shard)
  acquire_failed k c = if is_conn_error c then pure (lost_conn Side.default) else rethrow k c

  unfoldable pub acquired : TenantRow → Option Refusal → Act Result
  unfolding under_lease
  acquired t (some held) = pure (r ResultKind.skipped Reason.locked)
  acquired t none = under_lease t

  unfoldable pub with_lease : TenantRow → Act Result
  unfolding acquire_failed acquired
  with_lease t = try_then (lease_acquire e pk t.alias) acquire_failed (acquired t)

  unfoldable pub shortcut_failed : TenantRow → Kind → Chain → Act Result
  shortcut_failed t k c = if is_conn_error c then pure (lost_conn Side.shard) else failure e t k c

  unfoldable pub shortcut : TenantRow → Option (List (Text × Text)) → Act Result
  unfolding with_lease
  shortcut t (some []) = pure (r ResultKind.noop Reason.up_to_date)
  shortcut t (some (m ∷ ms)) = with_lease t
  shortcut t none = with_lease t

  unfoldable pub loaded : TenantRow → Act Result
  unfolding shortcut shortcut_failed
  loaded t =
      if t.shard_is_default
      then pure (r ResultKind.failed Reason.default_shard_anomaly)
      else elim (gate opts t) [
        | some gated ↦ pure gated
        | none ↦
            if upgradable opts t && not (targeted opts)
            then try_then (pending_plan e t) (shortcut_failed t) (shortcut t)
            else with_lease t
      ]

  unfoldable pub load_failed : Kind → Chain → Act Result
  load_failed Kind.tenant_missing c = pure (r ResultKind.skipped Reason.tenant_deleted)
  load_failed k c = if is_conn_error c then pure (lost_conn Side.default) else rethrow k c

  unfoldable pub migrate_tenant : Act Result
  unfolding loaded load_failed
  migrate_tenant = try_then (load e pk) load_failed loaded

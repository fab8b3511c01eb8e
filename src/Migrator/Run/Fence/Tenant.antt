-- ===== src/Migrator/Run/Fence/Tenant.antt =====
-- The whole run, from the load to the release.
use mt_shards_back_test.Base.{ℕ, Option, none, some, List, [], ◌∷◌, Text}
use mt_shards_back_test.Base.Exec.{Outcome, pure}
use mt_shards_back_test.Base.Exec.Keeps.{
  Keeps, keeps_rules, Keeps-if-eq, Keeps-if, Keeps-bind, Keeps-catch, Keeps-pure, Keeps-gets,
  Keeps-finally,
}
use mt_shards_back_test.Migrator.Db.{Db, TenantRow}
use mt_shards_back_test.Migrator.Errors.{Exn, Kind, Chain}
use mt_shards_back_test.Migrator.Env.{Env, Act, RunOptions}
use mt_shards_back_test.Migrator.Env.Steps.{Refusal}
use mt_shards_back_test.Migrator.Run.Result.{Result, gate}
use mt_shards_back_test.Migrator.Run.Tenant.{
  dispatch_ungated, dispatch, reload_failed, release_quietly, leave, under_lease, acquire_failed,
  acquired, with_lease, shortcut_failed, shortcut, loaded, load_failed, migrate_tenant,
}
use mt_shards_back_test.Migrator.Run.Fence.{
  Survives, exception-Keeps, try_then-Keeps, release-Keeps, lease_acquire-Keeps, load-Keeps,
  pending_plan-Keeps, failure-Keeps, rethrow-Keeps,
}
use mt_shards_back_test.Migrator.Run.Fence.Writes.{provision-Keeps, upgrade-Keeps}

module _ {e : Env} {pk : ℕ} {P : Db → Type 0} (s : Survives e pk P) (opts : RunOptions) where
  dispatch_ungated-Keeps : (t : TenantRow) → Keeps P (dispatch_ungated e pk opts t)
  unfolding dispatch_ungated
  dispatch_ungated-Keeps t =
      Keeps-if _ _ _ (provision-Keeps s t opts)
        (Keeps-if-eq _ _ _ (λ h. upgrade-Keeps s t opts h) (λ _. Keeps-pure _))

  gated-Keeps :
      (o : Option Result) (m : Act Result)
      → Keeps P m
      → Keeps P (elim o [ some gated ↦ pure gated | none ↦ m ])
  gated-Keeps none m k = k
  gated-Keeps (some res) m k = Keeps-pure res

  dispatch-Keeps : (t : TenantRow) → Keeps P (dispatch e pk opts t)
  unfolding dispatch
  dispatch-Keeps t =
      gated-Keeps (gate opts t) (dispatch_ungated e pk opts t) (dispatch_ungated-Keeps t)

  reload_failed-Keeps : (k : Kind) (c : Chain) → Keeps P (reload_failed e pk opts k c)
  unfolding reload_failed
  reload_failed-Keeps Kind.tenant_missing c = search keeps_rules
  reload_failed-Keeps _ c = search keeps_rules

  pub release_quietly-Keeps : Keeps P (release_quietly e pk opts)
  unfolding release_quietly
  release_quietly-Keeps =
      Keeps-catch _ _ (Keeps-bind _ _ (release-Keeps s) (λ _. Keeps-pure _))
        (λ x. exception-Keeps s _ x (λ k c. Keeps-pure _))

  leave-Keeps : (t : TenantRow) (o : Outcome Exn Result) → Keeps P (leave e pk opts t o)
  unfolding leave
  leave-Keeps t o = Keeps-bind _ _ (Keeps-gets _) (λ idle.
      Keeps-bind _ _ (s.close_shard t.alias)
        (λ _. Keeps-if _ _ _ release_quietly-Keeps (Keeps-pure _)))

  under_lease-Keeps : (t : TenantRow) → Keeps P (under_lease e pk opts t)
  unfolding under_lease
  under_lease-Keeps t =
      Keeps-finally _ _ (try_then-Keeps s _ _ _ (load-Keeps s) reload_failed-Keeps dispatch-Keeps)
        (leave-Keeps t)

  acquire_failed-Keeps : (k : Kind) (c : Chain) → Keeps P (acquire_failed e pk opts k c)
  unfolding acquire_failed
  acquire_failed-Keeps Kind.shard_unavailable c = search keeps_rules
  acquire_failed-Keeps _ c = search (keeps_rules, rethrow-Keeps s)

  acquired-Keeps : (t : TenantRow) (o : Option Refusal) → Keeps P (acquired e pk opts t o)
  unfolding acquired
  acquired-Keeps t none = under_lease-Keeps t
  acquired-Keeps t (some held) = search keeps_rules

  with_lease-Keeps : (t : TenantRow) → Keeps P (with_lease e pk opts t)
  unfolding with_lease
  with_lease-Keeps t =
      try_then-Keeps s _ _ _ (lease_acquire-Keeps s t.alias) acquire_failed-Keeps (acquired-Keeps t)

  shortcut_failed-Keeps :
      (t : TenantRow) (k : Kind) (c : Chain) → Keeps P (shortcut_failed e pk opts t k c)
  unfolding shortcut_failed
  shortcut_failed-Keeps t k c = search (keeps_rules, failure-Keeps s t)

  shortcut-Keeps :
      (t : TenantRow) (o : Option (List (Text × Text))) → Keeps P (shortcut e pk opts t o)
  unfolding shortcut
  shortcut-Keeps t none = with_lease-Keeps t
  shortcut-Keeps t (some []) = search keeps_rules
  shortcut-Keeps t (some (m ∷ ms)) = with_lease-Keeps t

  loaded-Keeps : (t : TenantRow) → Keeps P (loaded e pk opts t)
  unfolding loaded
  loaded-Keeps t = Keeps-if _ _ _ (Keeps-pure _) (
      gated-Keeps (gate opts t) _ (
        Keeps-if _ _ _
          (try_then-Keeps s _ _ _ (pending_plan-Keeps s t) (shortcut_failed-Keeps t)
            (shortcut-Keeps t))
          (with_lease-Keeps t)))

  load_failed-Keeps : (k : Kind) (c : Chain) → Keeps P (load_failed e pk opts k c)
  unfolding load_failed
  load_failed-Keeps Kind.tenant_missing c = search keeps_rules
  load_failed-Keeps _ c = search (keeps_rules, rethrow-Keeps s)

  -- A predicate that survives the surroundings, the five status writes under the fence, and this
  -- process's own claim, release and invalidation survives the whole run, on every path out of it.
  pub migrate_tenant-Keeps : Keeps P (migrate_tenant e pk opts)
  unfolding migrate_tenant
  migrate_tenant-Keeps = try_then-Keeps s _ _ _ (load-Keeps s) load_failed-Keeps loaded-Keeps

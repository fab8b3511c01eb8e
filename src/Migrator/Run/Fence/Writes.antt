-- ===== src/Migrator/Run/Fence/Writes.antt =====
-- The two algorithms and the whole run, rule by rule.
use mt_shards_back_test.Base.{
  ℕ, ◌≡◌, Bool, true, false, Option, none, some, List, [], ◌∷◌, Text, arith,
}
use mt_shards_back_test.Base.Exec.{ok, raise, throw}
use mt_shards_back_test.Base.Exec.Keeps.{
  Keeps, keeps_rules, Keeps-if-eq, Keeps-if, Keeps-bind, Keeps-pure, Keeps-throw,
}
use mt_shards_back_test.Validators.Schema.{quote_schema}
use mt_shards_back_test.Migrator.Db.{Db, TenantRow, Status, status_eq, status_in}
use mt_shards_back_test.Migrator.Errors.{exc, Kind, Chain}
use mt_shards_back_test.Migrator.Env.{Env, RunOptions}
use mt_shards_back_test.Migrator.Env.Steps.{upgradable_statuses}
use mt_shards_back_test.Migrator.Run.Result.{Side, Result, upgradable}
use mt_shards_back_test.Migrator.Run.Provision.{
  record_failure, second_failure, mark_failed, provision_failed, activated, go_active, activate,
  check_plan, create_schema, quoted_schema, migrate_claimed, after_claim, claim_tenant,
  refused_schema, refuse_schema, foreign_schema, provision_current, provision,
}
use mt_shards_back_test.Migrator.Run.Upgrade.{
  upgrade_failed, missing_written, missing_schema, run_upgrade, with_plan, upgrade,
}
use mt_shards_back_test.Migrator.Run.Fence.{
  Write, Survives, try_then-Keeps, cas-Keeps, forget-Keeps, pending_plan-Keeps, code_older-Keeps,
  cas_lost-Keeps, failure-Keeps, rethrow-Keeps,
}

module _ {e : Env} {pk : ℕ} {P : Db → Type 0} (s : Survives e pk P) (t : TenantRow) where
  record_failure-Keeps : (res : Result) (b : Bool) → Keeps P (record_failure e pk t res b)
  unfolding record_failure
  record_failure-Keeps res true = search (keeps_rules, forget-Keeps s)
  record_failure-Keeps res false = search (keeps_rules, cas_lost-Keeps s)

  second_failure-Keeps :
      (res : Result) (k : Kind) (c : Chain) → Keeps P (second_failure e pk t res k c)
  unfolding second_failure
  second_failure-Keeps res k c = search (keeps_rules, rethrow-Keeps s)

  mark_failed-Keeps : (res : Result) → Keeps P (mark_failed e pk t res)
  unfolding mark_failed
  mark_failed-Keeps res =
      try_then-Keeps s _ _ _
        (Keeps-bind _ _ (cas-Keeps s _ _ Write.broken) (record_failure-Keeps res))
        (second_failure-Keeps res) (λ a. Keeps-pure a)

  provision_failed-Keeps :
      (side : Side) (b : Bool) (k : Kind) (c : Chain) → Keeps P (provision_failed e pk t side b k c)
  unfolding provision_failed
  provision_failed-Keeps side b k c = search (keeps_rules, failure-Keeps s t, mark_failed-Keeps)

  activated-Keeps : (b : Bool) → Keeps P (activated e pk t b)
  unfolding activated
  activated-Keeps true = search (keeps_rules, forget-Keeps s)
  activated-Keeps false = cas_lost-Keeps s

  go_active-Keeps : (b : Bool) → Keeps P (go_active e pk t b)
  unfolding go_active
  go_active-Keeps true = search keeps_rules
  go_active-Keeps false = Keeps-bind _ _ (cas-Keeps s _ _ Write.activated) activated-Keeps

  activate-Keeps : Keeps P (activate e pk t)
  unfolding activate
  activate-Keeps =
      try_then-Keeps s _ _ _ (Keeps-bind _ _ (code_older-Keeps s) go_active-Keeps)
        (provision_failed-Keeps Side.default true) (λ a. Keeps-pure a)

  check_plan-Keeps : (o : Option (List (Text × Text))) → Keeps P (check_plan e pk t o)
  unfolding check_plan
  check_plan-Keeps none = search keeps_rules
  check_plan-Keeps (some []) = search keeps_rules
  check_plan-Keeps (some (m ∷ ms)) = search keeps_rules

  quoted_schema-Keeps : Keeps P (quoted_schema e pk t)
  unfolding quoted_schema
  quoted_schema-Keeps =
      elim (quote_schema t.schema_name)
        as (λ q. Keeps P (elim q [
          | ok quoted ↦ e.create_schema t.alias quoted
          | raise _ ↦ throw (exc Kind.other [])
        ])) [ ok q ↦ s.create_schema t.alias q | raise x ↦ Keeps-throw _ ]

  create_schema-Keeps : Keeps P (create_schema e pk t)
  unfolding create_schema
  create_schema-Keeps =
      Keeps-bind (e.shard_cursor t.alias) _ (s.shard_cursor t.alias) (λ _. quoted_schema-Keeps)

  migrate_claimed-Keeps : (opts : RunOptions) → Keeps P (migrate_claimed e pk t opts)
  unfolding migrate_claimed
  migrate_claimed-Keeps opts =
      try_then-Keeps s _ _ _
        (search
          (
            keeps_rules,
            create_schema-Keeps,
            s.open_shard,
            s.run_migrations,
            pending_plan-Keeps s,
            check_plan-Keeps,
          )
          depth 8)
        (provision_failed-Keeps Side.shard true) (λ a. activate-Keeps)

  after_claim-Keeps : (opts : RunOptions) (b : Bool) → Keeps P (after_claim e pk t opts b)
  unfolding after_claim
  after_claim-Keeps opts true = migrate_claimed-Keeps opts
  after_claim-Keeps opts false =
      try_then-Keeps s _ _ _ (cas_lost-Keeps s) (provision_failed-Keeps Side.default false)
        (λ a. Keeps-pure a)

  claim_tenant-Keeps : (opts : RunOptions) → Keeps P (claim_tenant e pk t opts)
  unfolding claim_tenant
  claim_tenant-Keeps opts =
      try_then-Keeps s _ _ _ (cas-Keeps s _ _ Write.claimed)
        (provision_failed-Keeps Side.default false) (after_claim-Keeps opts)

  refused_schema-Keeps : (b : Bool) → Keeps P (refused_schema e pk t b)
  unfolding refused_schema
  refused_schema-Keeps true = search (keeps_rules, forget-Keeps s)
  refused_schema-Keeps false = cas_lost-Keeps s

  refuse_schema-Keeps : Keeps P (refuse_schema e pk t)
  unfolding refuse_schema
  refuse_schema-Keeps =
      try_then-Keeps s _ _ _ (Keeps-bind _ _ (cas-Keeps s _ _ Write.foreign) refused_schema-Keeps)
        (provision_failed-Keeps Side.default false) (λ a. Keeps-pure a)

  foreign_schema-Keeps : Keeps P (foreign_schema e pk t)
  unfolding foreign_schema
  foreign_schema-Keeps = search (keeps_rules, s.has_relations)

  provision_current-Keeps : (opts : RunOptions) → Keeps P (provision_current e pk t opts)
  unfolding provision_current
  provision_current-Keeps opts =
      try_then-Keeps s _ _ _ foreign_schema-Keeps (provision_failed-Keeps Side.shard false)
        (λ b. Keeps-if b _ _ refuse_schema-Keeps (claim_tenant-Keeps opts))

  pub provision-Keeps : (opts : RunOptions) → Keeps P (provision e pk t opts)
  unfolding provision
  provision-Keeps opts = Keeps-if _ _ _ (Keeps-pure _) (
      try_then-Keeps s _ _ _ (code_older-Keeps s) (provision_failed-Keeps Side.default false)
        (λ b. Keeps-if b _ _ (Keeps-pure _) (provision_current-Keeps opts)))

  upgrade_failed-Keeps :
      (side : Side) (k : Kind) (c : Chain) → Keeps P (upgrade_failed e pk t side k c)
  unfolding upgrade_failed
  upgrade_failed-Keeps side k c = search (keeps_rules, failure-Keeps s t)

  missing_written-Keeps : (b : Bool) → Keeps P (missing_written e pk t b)
  unfolding missing_written
  missing_written-Keeps true = search (keeps_rules, forget-Keeps s)
  missing_written-Keeps false = cas_lost-Keeps s

  run_upgrade-Keeps : (opts : RunOptions) → Keeps P (run_upgrade e pk t opts)
  unfolding run_upgrade
  run_upgrade-Keeps opts =
      try_then-Keeps s _ _ _
        (search (keeps_rules, s.open_shard, s.run_migrations, pending_plan-Keeps s) depth 8)
        (upgrade_failed-Keeps Side.shard) (λ a. Keeps-pure a)

  -- What `upgradable` leaves when the tenant is not under maintenance.
  upgradable-gone :
      (opts : RunOptions)
      → upgradable opts t ≡ true
      → status_eq t.status Status.maintenance ≡ false
      → status_in t.status upgradable_statuses ≡ true
  unfolding upgradable
  upgradable-gone opts h n = ground arith

  missing_schema-Keeps :
      (opts : RunOptions) → upgradable opts t ≡ true → Keeps P (missing_schema e pk t)
  unfolding missing_schema
  missing_schema-Keeps opts h =
      Keeps-if-eq _ _ _ (λ _. Keeps-pure _)
        (λ n.
          try_then-Keeps s _ _ _
            (Keeps-bind _ _ (cas-Keeps s _ _ (Write.gone t.status (upgradable-gone opts h n)))
              missing_written-Keeps)
            (upgrade_failed-Keeps Side.default) (λ a. Keeps-pure a))

  with_plan-Keeps :
      (opts : RunOptions) (o : Option (List (Text × Text)))
      → upgradable opts t ≡ true
      → Keeps P (with_plan e pk t opts o)
  unfolding with_plan
  with_plan-Keeps opts none h = missing_schema-Keeps opts h
  with_plan-Keeps opts (some []) h = search (keeps_rules, run_upgrade-Keeps)
  with_plan-Keeps opts (some (m ∷ ms)) h = run_upgrade-Keeps opts

  pub upgrade-Keeps : (opts : RunOptions) → upgradable opts t ≡ true → Keeps P (upgrade e pk t opts)
  unfolding upgrade
  upgrade-Keeps opts h =
      try_then-Keeps s _ _ _ (pending_plan-Keeps s t) (upgrade_failed-Keeps Side.shard)
        (λ o. with_plan-Keeps opts o h)

-- ===== src/Tests/Runs.antt =====
-- Runs of the migrator in surroundings that answer everything at once.
use mt_shards_back_test.Base.{◌≡◌, refl, true, false, none, some, [], codes, text_eq, any, arith}
use mt_shards_back_test.Base.Exec.{pure, ◌>>=◌}
use mt_shards_back_test.Base.Exec.Keeps.{Keeps-pure}
use mt_shards_back_test.Validators.Schema.{quote_schema, is_unsafe}
use mt_shards_back_test.Migrator.Db.{
  Db, TenantRow, Holder, Status, LastError, holder, owned_by, status_eq, status_in,
}
use mt_shards_back_test.Migrator.Env.{Env, RunOptions}
use mt_shards_back_test.Migrator.Env.Steps.{
  targeted, code_older_than_db, older, relevant, latest_known, cas, forget, pending_plan, forward,
  load, lease_acquire, release,
}
use mt_shards_back_test.Migrator.Lease.{fenced_cas, upsert, lease_holder, lease_release}
use mt_shards_back_test.Migrator.Reactivation.{check_reactivation}
use mt_shards_back_test.Migrator.Reactivation.Laws.{Current, check_reactivation_lem}
use mt_shards_back_test.Migrator.Run.Result.{
  Result, r, ResultKind, Reason, try_then, gate, upgradable, failure,
}
use mt_shards_back_test.Migrator.Run.Provision.{provision}
use mt_shards_back_test.Migrator.Run.Tenant.{migrate_tenant}
use mt_shards_back_test.Migrator.Run.Fence.{Around}
use mt_shards_back_test.Migrator.Run.Safety.{
  Undisturbed, Moved, may_end, SameSite, migrate_tenant-Moved, migrate_tenant_end,
}
use mt_shards_back_test.Migrator.Run.Locked.{HeldByOther, migrate_tenant-locked}
use mt_shards_back_test.Migrator.Run.Released.{migrate_tenant-released}
use mt_shards_back_test.Migrator.Run.Served.{provision_success, IsActive, JustForgotten}

abbrev pub env : Env
env = record {
  me = codes "app-1";
  link = pure tt;
  session_active = λ a k. pure false;
  schema_exists = λ s a. pure true;
  migration_plan = λ a s. pure [];
  has_relations = λ a s. pure false;
  shard_cursor = λ a. pure tt;
  create_schema = λ a s. pure tt;
  open_shard = λ a k. pure tt;
  close_shard = λ a. pure tt;
  run_migrations = λ a s o. pure tt;
  invalid_indexes = λ a s. pure [];
  forget_tenant = λ k. pure tt;
  shard_idle = λ a db. true;
  known = [];
  migrated_apps = [];
  applied_migrations = pure [];
}

-- Nothing around the run touches the tables.
calm : (P : Db → Type 0) → Around env P
calm P = record {
  link = Keeps-pure tt;
  session_active = λ a k. Keeps-pure false;
  schema_exists = λ a s. Keeps-pure true;
  migration_plan = λ a s. Keeps-pure [];
  has_relations = λ a s. Keeps-pure false;
  shard_cursor = λ a. Keeps-pure tt;
  create_schema = λ a s. Keeps-pure tt;
  open_shard = λ a k. Keeps-pure tt;
  close_shard = λ a. Keeps-pure tt;
  run_migrations = λ a s o. Keeps-pure tt;
  invalid_indexes = λ a s. Keeps-pure [];
  forget_tenant = λ k. Keeps-pure tt;
  applied_migrations = Keeps-pure [];
}

undisturbed : Undisturbed env
undisturbed = record { at = λ rows. calm (λ db. db.tenants ≡ rows) }

abbrev opts : RunOptions
opts = record {
  fake = false;
  fake_initial = false;
  prune = false;
  run_syncdb = false;
  app_label = none;
  migration_name = none;
  maintenance = false;
}

abbrev acme : TenantRow
acme = record {
  schema_name = codes "acme";
  alias = codes "shard1";
  shard_is_default = false;
  status = Status.new;
  previous_status = Status.new;
  last_error = LastError.blank;
  status_changed_at = 0;
}

abbrev pub db : Db
db = record { leases = λ k. none; tenants = λ k. some acme; now = 100; forgotten = [] }

migrate_tenant-Moved_example : Moved 7 db.tenants (migrate_tenant env 7 opts db).1.tenants
migrate_tenant-Moved_example = migrate_tenant-Moved env 7 opts db undisturbed

migrate_tenant_end_example :
    (u : TenantRow) × ((migrate_tenant env 7 opts db).1.tenants 7 ≡ some u)
    × (may_end acme.status u.status ≡ true)
    × SameSite acme u
migrate_tenant_end_example = migrate_tenant_end env 7 opts db acme undisturbed refl

abbrev rival : Holder
rival = record { owner = codes "app-2"; since = 50; until = 3650 }

abbrev held_db : Db
held_db = record db { leases = λ k. some (some rival) }

migrate_tenant-locked_example :
    HeldByOther env.me 7 rival held_db.tenants (migrate_tenant env 7 opts held_db).1
migrate_tenant-locked_example =
    migrate_tenant-locked env 7 opts held_db rival held_db.tenants (λ h. ground arith)
      (calm (HeldByOther env.me 7 rival held_db.tenants))
      (record { held = refl; lives = omega arith; rows_stand = refl })

abbrev provisioned : Result
provisioned = r ResultKind.ok Reason.applied

migrate_tenant-released_example :
    owned_by env.me (holder (migrate_tenant env 7 opts db).1 7) ≡ false
unfolding migrate_tenant gate upgradable load lease_acquire upsert lease_holder release
    lease_release provision ◌>>=◌ try_then failure targeted code_older_than_db older relevant
    latest_known any cas fenced_cas forget pending_plan forward quote_schema is_unsafe text_eq
    status_eq status_in
migrate_tenant-released_example =
    migrate_tenant-released env 7 opts db provisioned (λ d. refl)
      (calm (λ d. owned_by env.me (holder d 7) ≡ false)) refl refl

-- The lease is held, as `migrate_tenant` has it when it provisions.
abbrev leased_db : Db
leased_db = record db {
  leases = λ k. some (some (record { owner = env.me; since = 50; until = 3650 }));
}

provision_success_example :
    IsActive ((provision env 7 acme opts leased_db).1.tenants 7)
    × JustForgotten 7 (provision env 7 acme opts leased_db).1.forgotten
unfolding provision ◌>>=◌ try_then failure targeted code_older_than_db older relevant latest_known
    any cas fenced_cas forget pending_plan forward quote_schema is_unsafe text_eq status_eq
    status_in
provision_success_example =
    provision_success env 7 acme opts leased_db provisioned undisturbed refl refl

check_reactivation_example : Current env acme
unfolding check_reactivation code_older_than_db pending_plan older relevant latest_known any pure
    forward
check_reactivation_example = check_reactivation_lem env acme held_db refl

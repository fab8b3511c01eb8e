-- ===== src/Tests/Release.antt =====
-- The operator's release of a lease that a dead migrator left behind.
use mt_shards_back_test.Base.{
  ℕ, refl, false, Option, none, some, Text, codes, text_eq, starts_with, List, [],
}
use mt_shards_back_test.Migrator.Db.{Db, TenantRow, Holder}
use mt_shards_back_test.Migrator.Lease.{lease_holder}
use mt_shards_back_test.Migrator.Release.{release_command}
use mt_shards_back_test.Migrator.Release.Laws.{Released, release_command_lem}
use mt_shards_back_test.Tests.Runs.{env}

abbrev left_behind : Holder
left_behind = record { owner = codes "app-9"; since = 100; until = 3700 }

abbrev db : Db
db = record {
  leases = λ k. some (some left_behind);
  tenants = λ k. none;
  now = 5000;
  forgotten = [];
}

abbrev no_int : Text → Option ℕ
no_int t = none

abbrev no_tenant : Text → Db → Option (ℕ × TenantRow)
no_tenant t d = none

abbrev no_shards : Db → List Text
no_shards d = []

release_command_example :
    Released env no_int no_tenant no_shards
      (codes "shared")
      db
      (release_command env no_int no_tenant no_shards false (codes "shared") db).1
unfolding release_command text_eq starts_with lease_holder
release_command_example =
    release_command_lem env no_int no_tenant no_shards (codes "shared") db refl

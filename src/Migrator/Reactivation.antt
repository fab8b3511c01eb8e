-- ===== src/Migrator/Reactivation.antt =====
-- tenants/migrator.py, check_reactivation: whether a tenant may be served as ACTIVE by this code. The
-- texts of the exceptions are left out.
pub mod Laws
use mt_shards_back_test.Base.{
  Bool, true, false, Option, none, some, Text, if◌then◌else◌, List, [], ◌∷◌,
}
use mt_shards_back_test.Base.Exec.{Outcome, ok, raise, Exec, pure, throw, ◌>>=◌, ◌>>◌}
use mt_shards_back_test.Migrator.Db.{Db, TenantRow}
use mt_shards_back_test.Migrator.Errors.{Exn, exc, interrupt, is_conn_error}
use mt_shards_back_test.Migrator.Env.{Env}
use mt_shards_back_test.Migrator.Env.Steps.{code_older_than_db, pending_plan}

-- ReactivationUnavailable, of `default` and of the shard, DeployInProgress, SchemaMissing,
-- SchemaBehind with the plan, and what else is raised.
pub data Stop : Type 0 where
  default_unavailable shard_unavailable deploy_in_progress schema_missing : Stop
  schema_behind : List (Text × Text) → Stop
  escaped : Exn → Stop

-- `except Exception`: a lost connection is the given stop.
unfoldable pub lost_as : Stop → Exn → Stop
lost_as stop (exc k c) = if is_conn_error c then stop else escaped (exc k c)
lost_as stop interrupt = escaped interrupt

abbrev pub translate : {A : Type 0} → (Exn → Stop) → Outcome Exn A × Db → Outcome Stop A × Db
translate f (ok a, db) = (ok a, db)
translate f (raise x, db) = (raise (f x), db)

unfoldable pub asking : {A : Type 0} → Stop → Exec Exn Db A → Exec Stop Db A
unfolding lost_as
asking stop m db = translate (lost_as stop) (m db)

abbrev pub plan_stop : Option (List (Text × Text)) → Exec Stop Db (Unit {0})
plan_stop none = throw schema_missing
plan_stop (some []) = pure tt
plan_stop (some (m ∷ ms)) = throw (schema_behind (m ∷ ms))

abbrev pub check_plan_of : Env → TenantRow → Bool → Exec Stop Db (Unit {0})
check_plan_of e t true = throw deploy_in_progress
check_plan_of e t false = asking shard_unavailable (pending_plan e t) >>= plan_stop

unfoldable pub check_reactivation : Env → TenantRow → Exec Stop Db (Unit {0})
unfolding asking code_older_than_db pending_plan pure throw ◌>>=◌
check_reactivation e t = asking default_unavailable (code_older_than_db e) >>= check_plan_of e t

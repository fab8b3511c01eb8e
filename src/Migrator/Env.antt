-- ===== src/Migrator/Env.antt =====
-- tenants/migrator.py: what the migrator asks of its surroundings, and its own steps built on them.
-- PostgreSQL beyond the tables of Db.antt, Django's migration machinery and the connections are
-- not under the repository: they are the fields of `Env`, and each may raise or change the tables
-- of `default` (other processes run meanwhile).
pub mod Steps
use mt_shards_back_test.Base.{
  ℕ, Bool, true, false, not, ◌&&◌, Option, none, some, List, [], ◌∷◌, Text,
}
use mt_shards_back_test.Base.Exec.{Exec}
use mt_shards_back_test.Migrator.Db.{Db}
use mt_shards_back_test.Migrator.Errors.{Exn}

-- A step of a migration plan, with Django's `backwards` flag.
pub record PlanStep : Type 0 where
  pub app : Text
  pub name : Text
  pub backwards : Bool

pub record Applied : Type 0 where
  pub app : Text
  pub name : Text
  pub applied : ℕ

-- RunOptions, without the verbosity and the log folder.
pub record RunOptions : Type 0 where
  pub fake : Bool
  pub fake_initial : Bool
  pub prune : Bool
  pub run_syncdb : Bool
  pub app_label : Option Text
  pub migration_name : Option Text
  pub maintenance : Bool

abbrev pub Act : Type 0 → Type 0
Act A = Exec Exn Db A

pub record Env : Type 0 where
  -- owner() of this process
  pub me : Text
  -- An access to `default`: what others have committed since the last one, or a failure.
  pub link : Act (Unit {0})
  -- The pg_stat_activity query of shard_session_active, and its answer.
  pub session_active : Text → ℕ → Act Bool
  pub schema_exists : Text → Text → Act Bool
  -- set_schema and MigrationExecutor.migration_plan of the leaf nodes
  pub migration_plan : Text → Text → Act (List PlanStep)
  pub has_relations : Text → Text → Act Bool
  -- connections[alias].cursor(), and CREATE SCHEMA IF NOT EXISTS on it
  pub shard_cursor : Text → Act (Unit {0})
  pub create_schema : Text → Text → Act (Unit {0})
  -- ensure_connection and the set_config statement of _open_shard
  pub open_shard : Text → ℕ → Act (Unit {0})
  pub close_shard : Text → Act (Unit {0})
  pub run_migrations : Text → Text → RunOptions → Act (Unit {0})
  -- The query of invalid_indexes, which never fails for its caller.
  pub invalid_indexes : Text → Text → Act (List Text)
  -- resolve_cache.forget_tenant
  pub forget_tenant : ℕ → Act (Unit {0})
  -- _shard_idle, asked of the connection object
  pub shard_idle : Text → Db → Bool
  -- MigrationLoader: the migrations on disk and those they replace, and the migrated apps.
  pub known : List (Text × Text)
  pub migrated_apps : List Text
  -- MigrationRecorder.applied_migrations on `default`
  pub applied_migrations : Act (List Applied)

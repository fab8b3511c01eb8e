-- ===== src/Schemas/Options.antt =====
-- migrate_schemas.py: the start of `handle` and `_validate`. The query for the shard of --database,
-- that for the tenant of -s, the folder of --summary-json and the configured aliases are given.
-- A number below 0 is read as 0, and a value that is no integer as `other`.
pub mod Laws
use mt_shards_back_test.Base.{
  ℕ, Bool, true, false, not, ◌&&◌, ◌||◌, Option, none, some, List, [], ◌∷◌, Text, text_eq, elem,
  codes, is_some, is_none, ltb, leb, if◌then◌else◌,
}
use mt_shards_back_test.Migrator.Db.{Status, status_in}
use mt_shards_back_test.Migrator.Env.{RunOptions}
use mt_shards_back_test.Migrator.Env.Steps.{targeted, truthy_text, provisionable}

pub data Number : Type 0 where
  whole : ℕ → Number
  other : Number

-- The flags as the parser and SyncCommon leave them.
pub record Options : Type 0 where
  pub schema_name : Option Text
  pub tenant_flag : Bool
  pub sync_public : Bool
  pub sync_tenant : Bool
  pub check : Bool
  pub plan : Bool
  pub executor : Option Text
  pub jobs : Option Number
  pub jobs_per_shard : Option Number
  pub max_failures : Option Number
  pub keep_going : Bool
  pub summary_json : Option Text
  pub database : Option Text
  pub run : RunOptions

pub record ShardRow : Type 0 where
  pub is_default : Bool
  pub is_active : Bool

pub record TargetRow : Type 0 where
  pub alias : Text
  pub status : Status

-- What _validate asks of its surroundings.
pub record Site : Type 0 where
  pub default_jobs : Number
  pub default_per_shard : Number
  pub aliases : List Text
  pub writable_folder : Text → Bool
  pub shard : Text → Option ShardRow
  pub tenant : Text → Option TargetRow

-- Each CommandError of `handle` and of _validate.
pub data Refused : Type 0 where
  public_tenant check_unsupported plan_unsupported executor_unsupported below_one : Refused
  per_shard_over_jobs maintenance_alone summary_stdout summary_folder unknown_alias : Refused
  shard_missing shard_default shard_inactive tenant_missing alias_mismatch : Refused
  targeted_provisioning targeted_many : Refused

-- The first error of a list of checks.
abbrev pub first_error : List (Option Refused) → Option Refused
first_error [] = none
first_error (none ∷ xs) = first_error xs
first_error (some x ∷ xs) = some x

abbrev pub unless : Bool → Refused → Option Refused
unless true x = none
unless false x = some x

abbrev pub number_or : Number → Option Number → Number
number_or d none = d
number_or d (some n) = n

abbrev pub at_least_one : Number → Bool
at_least_one (whole n) = leb 1 n
at_least_one other = false

abbrev pub value : Number → ℕ
value (whole n) = n
value other = 0

unfoldable pub jobs_of : Site → Options → Number
jobs_of site o = number_or site.default_jobs o.jobs

unfoldable pub per_shard_of : Site → Options → Number
per_shard_of site o = number_or site.default_per_shard o.jobs_per_shard

unfoldable pub max_failures_of : Options → Number
max_failures_of o = number_or (whole 3) o.max_failures

abbrev pub number_checks : Site → Options → List (Option Refused)
number_checks site o =
    unless (at_least_one (jobs_of site o)) below_one
    ∷ unless (at_least_one (per_shard_of site o)) below_one
    ∷ unless (at_least_one (max_failures_of o)) below_one
    ∷ unless (leb (value (per_shard_of site o)) (value (jobs_of site o))) per_shard_over_jobs
    ∷ []

unfoldable pub check_numbers : Site → Options → Option Refused
check_numbers site o = first_error (number_checks site o)

unfoldable pub check_modes : Options → Option Refused
unfolding text_eq
check_modes o = first_error (
    unless (not o.check) check_unsupported
    ∷ unless (not o.plan) plan_unsupported
    ∷ unless (runs_standard o.executor) executor_unsupported
    ∷ [])
  where
    runs_standard : Option Text → Bool
    runs_standard none = true
    runs_standard (some x) = text_eq x (codes "standard")

abbrev pub check_folder : Site → Option Text → Option Refused
check_folder site none = none
check_folder site (some path) =
    if text_eq path (codes "-")
    then some summary_stdout
    else unless (site.writable_folder path) summary_folder

abbrev pub check_shard : Option ShardRow → Option Refused
check_shard none = some shard_missing
check_shard (some s) =
    if s.is_default then some shard_default else unless s.is_active shard_inactive

abbrev pub check_alias : Site → Options → Option Refused
check_alias site o = if truthy_text o.database then known o.database else none
  where
    known : Option Text → Option Refused
    known none = none
    known (some x) =
        if not (elem x site.aliases)
        then some unknown_alias
        else if o.sync_tenant && not (truthy_text o.schema_name)
        then check_shard (site.shard x)
        else none

abbrev pub mismatched : Option Text → Text → Bool
mismatched none alias = false
mismatched (some x) alias = truthy_text (some x) && not (text_eq x alias)

abbrev pub check_tenant : Options → Option TargetRow → Option Refused
check_tenant o none = some tenant_missing
check_tenant o (some t) =
    if mismatched o.database t.alias
    then some alias_mismatch
    else unless (not (targeted o.run && status_in t.status provisionable)) targeted_provisioning

abbrev pub check_target : Site → Options → Option Text → Option Refused
check_target site o none =
    unless (not (targeted o.run && (o.sync_tenant || not o.sync_public))) targeted_many
check_target site o (some []) =
    unless (not (targeted o.run && (o.sync_tenant || not o.sync_public))) targeted_many
check_target site o (some (c ∷ s)) = check_tenant o (site.tenant (c ∷ s))

abbrev pub checks : Site → Options → List (Option Refused)
checks site o =
    check_modes o
    ∷ check_numbers site o
    ∷ unless (not (o.run.maintenance && not (truthy_text o.schema_name))) maintenance_alone
    ∷ check_folder site o.summary_json
    ∷ check_alias site o
    ∷ check_target site o o.schema_name
    ∷ []

-- _validate: the first of its errors.
unfoldable pub validate : Site → Options → Option Refused
validate site o = first_error (checks site o)

abbrev pub names_public : Option Text → Bool
names_public none = false
names_public (some x) = text_eq x (codes "public")

-- The start of `handle`: `-s public` is the shared stage.
unfoldable pub options_of : Options → Option Refused × Options
unfolding text_eq
options_of o =
    if names_public o.schema_name
    then (
      unless (not o.tenant_flag) public_tenant,
      record o { schema_name = none; sync_public = true; sync_tenant = false },
    )
    else (none, o)

-- `handle` up to the run.
unfoldable pub accept : Site → Options → Option Refused × Options
unfolding options_of validate
accept site o = let (err, o') = options_of o in (first_error (err ∷ validate site o' ∷ []), o')

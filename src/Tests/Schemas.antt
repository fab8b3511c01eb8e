-- ===== src/Tests/Schemas.antt =====
-- A run of migrate_schemas over three tenants on two shards.
use mt_shards_back_test.Base.{
  ℕ, ◌+◌, ◌≤◌, ◌<◌, ◌≡◌, refl, Bool, true, false, not, ◌&&◌, Option, none, some, List, [], ◌∷◌, map,
  Text, codes, text_eq, length, is_some, ◌==◌, if◌then◌else◌, arith, any, all, zero, suc,
}
use mt_shards_back_test.Base.Exec.{Exec, pure, throw}
use mt_shards_back_test.Migrator.Db.{Status}
use mt_shards_back_test.Migrator.Env.{RunOptions}
use mt_shards_back_test.Migrator.Env.Steps.{targeted, truthy_text}
use mt_shards_back_test.Migrator.Run.Result.{Result, ResultKind, Reason, r}
use mt_shards_back_test.Schemas.Entries.{
  StageName, Target, entry, entry_at, write, take, kind_of, exit_code,
}
use mt_shards_back_test.Schemas.Queue.{
  queue, set_queue, append_to, queued, tally, set_tally, total, sorted, insert, text_leb, past,
  upto, rotated, first_free, free_for, pick_next,
}
use mt_shards_back_test.Schemas.Queue.Laws.{weight}
use mt_shards_back_test.Schemas.Stage.{
  stage_of, queued_from, remaining, next, halt, stop_on_failure, done,
}
use mt_shards_back_test.Schemas.Pool.{
  World, Pool, Completion, returned, submit, finish, is_in, removed, collect, fill, receive,
  received, any_broken, prepared, turn, run_parallel,
}
use mt_shards_back_test.Schemas.Pool.Invariant.{is_at}
use mt_shards_back_test.Schemas.Pool.Reach.{
  Reach, here, later, hands, takes, opened, running_on, Reach-bounds,
}
use mt_shards_back_test.Schemas.Pool.Answers.{Answered, run_parallel_code}
use mt_shards_back_test.Schemas.Pool.Stops.{Reach-fail_fast}
use mt_shards_back_test.Schemas.Pool.Streaks.{in_a_row, Reach-patient}
use mt_shards_back_test.Schemas.Sequential.{run_sequential}
use mt_shards_back_test.Schemas.Sequential.Laws.{Ends, first, run_sequential_lem}
use mt_shards_back_test.Schemas.Options.{
  Options, Site, Number, validate, jobs_of, per_shard_of, max_failures_of, value, check_numbers,
  check_modes,
}
use mt_shards_back_test.Schemas.Options.Laws.{validate_lem}
use mt_shards_back_test.Schemas.Command.{snapshot}
use mt_shards_back_test.Schemas.Command.Laws.{is_quiet, snapshot-quiet}
use mt_shards_back_test.Tests.Runs.{env, db}

abbrev at_shard : ℕ → Text → Target
at_shard pk shard = record {
  stage = StageName.tenant;
  schema = codes "t";
  shard = shard;
  tenant_id = some pk;
  status_before = some Status.active;
}

abbrev ts : List Target
ts = at_shard 1 (codes "a") ∷ at_shard 2 (codes "a") ∷ at_shard 3 (codes "b") ∷ []

abbrev fine : Result
fine = r ResultKind.ok Reason.applied

abbrev bad : Result
bad = r ResultKind.failed Reason.migration_error

-- The first of the running futures ends well.
abbrev first_done : List ℕ → List (ℕ × Completion)
first_done [] = []
first_done (i ∷ is) = (i, returned fine) ∷ []

abbrev calm_world : World
calm_world = record {
  drain = λ k. false;
  wait = λ k is. first_done is;
  salvaged = λ k is. [];
  hard = λ k. false;
}

-- Every other wait times out.
abbrev odd : ℕ → Bool
odd zero = false
odd (suc n) = not (odd n)

abbrev slow_world : World
slow_world = record calm_world { wait = λ k is. if odd k then first_done is else [] }

abbrev pool_in : Option Pool → Pool
pool_in none = opened [] (map entry ts) true 3
pool_in (some p) = p

abbrev final : Pool
final = pool_in (run_parallel calm_world 2 1 4 0 (opened [] (map entry ts) true 3))

pool_in-some : (o : Option Pool) → is_some o ≡ true → o ≡ some (pool_in o)
pool_in-some none h = absurd (ground arith)
pool_in-some (some p) h = refl

final_given : run_parallel calm_world 2 1 4 0 (opened [] (map entry ts) true 3) ≡ some final
unfolding run_parallel turn prepared fill submit next pick_next sorted rotated past upto first_free
    free_for total queue set_queue tally set_tally write receive received finish is_in removed
    collect take kind_of entry_at done stop_on_failure remaining halt opened stage_of queued_from
    append_to entry any_broken queued insert text_leb text_eq any
final_given = pool_in-some (run_parallel calm_world 2 1 4 0 (opened [] (map entry ts) true 3)) refl

final_code : exit_code final.entries final.stage.stop ≡ 0
unfolding exit_code all run_parallel turn prepared fill submit next pick_next sorted rotated past
    upto first_free free_for total queue set_queue tally set_tally write receive received finish
    is_in removed collect take kind_of entry_at done stop_on_failure remaining halt opened stage_of
    queued_from append_to entry any_broken queued insert text_leb text_eq any
final_code = refl

run_parallel_code_example : Answered calm_world 2 1 (0 + 2) 0 (opened [] (map entry ts) true 3)
run_parallel_code_example =
    run_parallel_code calm_world 2 1 4 [] ts true 3 final final_given final_code 2 (omega arith)

abbrev start : Bool → Pool
unfolding opened stage_of queued_from append_to entry
start keep_going = opened [] (map entry ts) keep_going 2

-- Two targets have been handed over, the first of each shard.
abbrev trail : (keep_going : Bool) → (p : Pool) × Reach 2 1 (start keep_going) p
unfolding run_parallel turn prepared fill submit next pick_next sorted rotated past upto first_free
    free_for total queue set_queue tally set_tally write receive received finish is_in removed
    collect take kind_of entry_at done stop_on_failure remaining halt opened stage_of queued_from
    append_to entry any_broken queued insert text_leb text_eq any
trail keep_going = (_, later (later here (hands refl)) (hands refl))

Reach-bounds_example :
    (length (trail true).0.running ≤ 2)
    × (running_on (codes "a") (trail true).0 ≤ 1)
    × (weight (is_at 0) (queued (trail true).0.stage.queues)
          + weight (is_at 0) (trail true).0.running
        ≤ 1)
unfolding opened start trail
Reach-bounds_example = Reach-bounds [] (map entry ts) true 2 2 1 (trail true).1 (codes "a") 0

-- The first target of shard a has failed.
abbrev failed_once : Reach 2 1 (start true) (finish 0 (returned bad) (trail true).0)
unfolding start trail is_in
failed_once = later (trail true).1 (takes 0 (returned bad) refl refl)

Reach-patient_example : in_a_row (codes "a") failed_once < 2
unfolding start trail failed_once run_parallel turn prepared fill submit next pick_next sorted
    rotated past upto first_free free_for total queue set_queue tally set_tally write receive
    received finish is_in removed collect take kind_of entry_at done stop_on_failure remaining halt
    opened stage_of queued_from append_to entry any_broken queued insert text_leb text_eq any
Reach-patient_example = Reach-patient [] (map entry ts) 2 (omega arith) failed_once refl (codes "a")

Reach-fail_fast_example : submit 2 1 (finish 0 (returned bad) (trail false).0) ≡ none
unfolding start trail run_parallel turn prepared fill submit next pick_next sorted rotated past upto
    first_free free_for total queue set_queue tally set_tally write receive received finish is_in
    removed collect take kind_of entry_at done stop_on_failure remaining halt opened stage_of
    queued_from append_to entry any_broken queued insert text_leb text_eq any
Reach-fail_fast_example =
    Reach-fail_fast [] (map entry ts) 2 0 (returned bad) (omega arith) (trail false).1 refl refl
      here

-- The work fails for the second tenant, and raises for the third.
abbrev work : Option ℕ → Exec ℕ ℕ Result
work none = pure fine
work (some n) = if n == 3 then throw n else if n == 2 then pure bad else pure fine

run_sequential_example :
    Ends []
      (map entry ts)
      true
      2
      work
      (λ s. false)
      (first [] (map entry ts) true 2)
      0
      (run_sequential work (λ s. false) 4 (first [] (map entry ts) true 2) 0)
run_sequential_example = run_sequential_lem [] (map entry ts) true 2 work (λ s. false) 0

abbrev no_flags : RunOptions
no_flags = record {
  fake = false;
  fake_initial = false;
  prune = false;
  run_syncdb = false;
  app_label = none;
  migration_name = none;
  maintenance = false;
}

abbrev flags : Options
flags = record {
  schema_name = none;
  tenant_flag = true;
  sync_public = false;
  sync_tenant = true;
  check = false;
  plan = false;
  executor = none;
  jobs = some (Number.whole 4);
  jobs_per_shard = none;
  max_failures = none;
  keep_going = true;
  summary_json = none;
  database = none;
  run = no_flags;
}

abbrev site : Site
site = record {
  default_jobs = Number.whole 8;
  default_per_shard = Number.whole 2;
  aliases = [];
  writable_folder = λ p. true;
  shard = λ a. none;
  tenant = λ s. none;
}

validate_example :
    (0 < value (per_shard_of site flags))
    × (value (per_shard_of site flags) ≤ value (jobs_of site flags))
    × (0 < value (max_failures_of flags))
    × ((flags.run.maintenance && not (truthy_text flags.schema_name)) ≡ false)
    × ((targeted flags.run && (flags.sync_tenant && not (truthy_text flags.schema_name))) ≡ false)
unfolding validate check_modes check_numbers jobs_of per_shard_of max_failures_of targeted
validate_example = validate_lem site flags refl

snapshot_example : is_quiet (snapshot env 7 db).0 ≡ true
snapshot_example = snapshot-quiet env 7 db

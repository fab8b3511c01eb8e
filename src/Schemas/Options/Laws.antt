-- ===== src/Schemas/Options/Laws.antt =====
-- The checks of the command line.
use mt_shards_back_test.Base.{
  ◌≤◌, ◌<◌, ◌≡◌, refl, true, false, not, ◌&&◌, Option, none, some, List, [], ◌∷◌, arith, All,
  leb→le, Text,
}
use mt_shards_back_test.Migrator.Env.Steps.{targeted, truthy_text}
use mt_shards_back_test.Schemas.Options.{
  Options, Site, Refused, Number, first_error, at_least_one, value, jobs_of, per_shard_of,
  max_failures_of, check_numbers, number_checks, checks, validate, check_target,
}

first_error-none : (xs : List (Option Refused)) → first_error xs ≡ none → All (λ x. x ≡ none) xs
first_error-none [] h = tt
first_error-none (none ∷ xs) h = (refl, first_error-none xs h)
first_error-none (some x ∷ xs) h = absurd (ground arith)

at_least_one-value : (n : Number) → at_least_one n ≡ true → 0 < value n
at_least_one-value (Number.whole n) h = ground arith
at_least_one-value Number.other h = absurd (ground arith)

check_target-none :
    (site : Site) (o : Options) (name : Option Text)
    → check_target site o name ≡ none
    → (targeted o.run && (o.sync_tenant && not (truthy_text name))) ≡ false
check_target-none site o none h = ground arith
check_target-none site o (some []) h = ground arith
check_target-none site o (some (c ∷ s)) h = ground arith

-- A command line that is accepted has a limit per shard of at least one and at most that of all,
-- and a limit of failures of at least one; --maintenance comes with -s, and so does a targeted
-- flag where the tenant stage runs.
pub validate_lem :
    (site : Site) (o : Options)
    → validate site o ≡ none
    → (0 < value (per_shard_of site o))
      × (value (per_shard_of site o) ≤ value (jobs_of site o))
      × (0 < value (max_failures_of o))
      × ((o.run.maintenance && not (truthy_text o.schema_name)) ≡ false)
      × ((targeted o.run && (o.sync_tenant && not (truthy_text o.schema_name))) ≡ false)
unfolding validate check_numbers
validate_lem site o h =
    let all = first_error-none (checks site o) h in
    let numbers = first_error-none (number_checks site o) all.1.0 in
    (
      at_least_one-value (per_shard_of site o) (ground (arith, numbers)),
      leb→le (value (per_shard_of site o)) (value (jobs_of site o)) (ground (arith, numbers)),
      at_least_one-value (max_failures_of o) (ground (arith, numbers)),
      ground (arith, all.1.1.0),
      check_target-none site o o.schema_name all.1.1.1.1.1.0,
    )

-- ===== src/Tests/Front.antt =====
-- The resolve policy and its throttles at concrete requests.
use mt_shards_back_test.Base.{
  ◌+◌, ◌-◌, ◌*◌, ◌≤◌, ◌≡◌, refl, true, false, none, some, [], ◌∷◌, codes, arith, ◌⊎◌,
}
use mt_shards_back_test.Base.Exec.{ok, raise, pure}
use mt_shards_back_test.Resolver.Snapshot.{row, capture, TenantSnapshot}
use mt_shards_back_test.Resolver.Cache.{get_snapshot}
use mt_shards_back_test.Resolver.Throttle.{Bucket, Throttle, Limits, Limiter, no_incr, leads, min}
use mt_shards_back_test.Resolver.Throttle.Laws.{
  bucket_run, bucket_run_lem, allow_run, allow_run_lem,
}
use mt_shards_back_test.Resolver.Registry.{
  Exn, deferred, redis_error, Front, Fault, Settings, gate_enabled, read_registry, Point,
  read_snapshot, set_marker, publish, write_fill, write_miss, membership,
}
use mt_shards_back_test.Resolver.Service.{Act, resolve}
use mt_shards_back_test.Resolver.Service.Laws.{resolve_lem}
use mt_shards_back_test.Resolver.Service.Fill.{Answer, is_infra}
use mt_shards_back_test.Tests.Backend.{Table, table, find}
use mt_shards_back_test.Tests.Cache

abbrev bucket : Bucket
bucket = record { tokens = 2000; ts = 10 }

-- Three calls within a millisecond of a bucket with two tokens.
bucket_run_example :
    1000 * (bucket_run 5 (10 ∷ 10 ∷ 11 ∷ []) bucket).0
      + (bucket_run 5 (10 ∷ 10 ∷ 11 ∷ []) bucket).1.tokens
    ≤ 2000 + (11 - 10) * 5
bucket_run_example = bucket_run_lem 5 (10 ∷ 10 ∷ 11 ∷ []) bucket (omega arith)

abbrev throttle : Throttle
throttle = record { clock = 5000; probes = λ _. 1; bucket = bucket }

abbrev limits : Limits
limits = record { limit = 3; local_rate = 5 }

allow_run_example : (allow_run limits 4 throttle).0 ≡ min 4 (3 - 1)
allow_run_example = allow_run_lem limits 4 throttle

abbrev settings : Settings
settings = record { config = record Cache.settings { warm = true }; gate = true; limits = limits }

-- No registry, and a Redis that loses its connection at each read of it.
abbrev front : Front Table
front = record {
  cache = [];
  hosts = none;
  dirty = 0;
  warm_pending = false;
  enqueued = 0;
  throttle = throttle;
}

abbrev fault : Fault Table
fault read_registry s = some redis_error
fault read_snapshot s = none
fault set_marker s = none
fault publish s = none
fault write_fill s = none
fault write_miss s = none
fault membership s = none

faulty : (p : Point) (s : Front Table) (x : Exn) → fault p s ≡ some x → is_infra x ≡ true
faulty read_registry s x h = ground arith
faulty read_snapshot s x h = ground arith
faulty set_marker s x h = ground arith
faulty publish s x h = ground arith
faulty write_fill s x h = ground arith
faulty write_miss s x h = ground arith
faulty membership s x h = ground arith

abbrev limiter : Front Table → Limiter
limiter s = no_incr

abbrev db : Act table settings fault limiter TenantSnapshot
db = pure (capture (row Cache.acme))

abbrev answer : Answer
answer = ok (capture (row Cache.acme))

resolve_example :
    ((resolve table settings fault limiter (codes "a.example") leads db front).0 ≡ answer)
    ⊎ ((gate_enabled settings ≡ true)
        × ((resolve table settings fault limiter (codes "a.example") leads db front).0
            ≡ raise deferred))
unfolding find get_snapshot pure
resolve_example =
    resolve_lem table settings fault limiter answer (codes "a.example") leads db front faulty
      (λ s. refl) tt tt (λ _. tt)

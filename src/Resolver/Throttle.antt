-- ===== src/Resolver/Throttle.antt =====
-- tenants/resolver/throttle.py: the local token bucket, the fixed-window cap and single_flight. The
-- clock counts milliseconds, and the float tokens of the source are thousandths of a token here.
pub mod Laws
use mt_shards_back_test.Base.{
  ℕ, suc, ◌+◌, ◌-◌, ◌*◌, ◌/◌, Bool, true, false, Option, none, some, leb, ltb, ◌==◌, if◌then◌else◌,
}
use mt_shards_back_test.Base.Exec.{Outcome, ok, raise, Exec, lift}

-- _LocalBucket
pub record Bucket : Type 0 where
  pub tokens : ℕ
  pub ts : ℕ

abbrev pub min : ℕ → ℕ → ℕ
min a b = if leb a b then a else b

abbrev pub max : ℕ → ℕ → ℕ
max a b = if leb a b then b else a

-- _LocalBucket.allow at a time, with the rate per second.
unfoldable pub bucket_allow : ℕ → ℕ → Bucket → Bool × Bucket
bucket_allow rate now b =
    let cap = max 1000 (1000 * rate) in
    let tokens = min cap (b.tokens + (now - b.ts) * rate) in
    if leb 1000 tokens
    then (true, record { tokens = tokens - 1000; ts = now })
    else (false, record { tokens = tokens; ts = now })

-- The counters `treg:probe:<second>` and the bucket of the process.
pub record Throttle : Type 0 where
  pub clock : ℕ
  pub probes : ℕ → ℕ
  pub bucket : Bucket

-- FILLCAP_PER_SEC and FILLCAP_LOCAL_PER_SEC
pub record Limits : Type 0 where
  pub limit : ℕ
  pub local_rate : ℕ

-- c.incr(key)
unfoldable pub incr : ℕ → (ℕ → ℕ) → ℕ → ℕ
incr second probes j = if second == j then suc (probes j) else probes j

-- What Redis does with the two commands of FillCap.allow: it answers both, or the INCR or the
-- EXPIRE raises RedisError.
pub data Limiter : Type 0 where
  answers no_incr no_expire : Limiter

abbrev pub local_allow : Limits → Throttle → Bool × Throttle
local_allow limits t =
    let r = bucket_allow limits.local_rate t.clock t.bucket in (r.0, record t { bucket = r.1 })

abbrev pub probed : Throttle → Throttle
probed t = record t { probes = incr (t.clock / 1000) t.probes }

-- FillCap.allow
unfoldable pub allow : Limits → Limiter → Throttle → Bool × Throttle
unfolding bucket_allow incr
allow limits answers t = (leb ((probed t).probes (t.clock / 1000)) limits.limit, probed t)
allow limits no_incr t = local_allow limits t
allow limits no_expire t = local_allow limits (probed t)

-- What a caller of single_flight meets: it leads; or it follows and the leader is too slow, raised,
-- aborted before a value, or gave one.
pub data Flight (X A : Type 0) : Type 0 where
  leads slow aborted : Flight X A
  failed : X → Flight X A
  gave : A → Flight X A

unfoldable pub single_flight : {X S A : Type 0} → Flight X A → Exec X S A → Exec X S A
unfolding lift
single_flight leads resolver = resolver
single_flight slow resolver = resolver
single_flight aborted resolver = resolver
single_flight (failed x) resolver = lift (raise x)
single_flight (gave a) resolver = lift (ok a)

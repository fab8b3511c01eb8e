-- ===== src/Resolver/Service.antt =====
-- tenants/resolver/service.py: the resolve policy. The resolver of the database is a parameter, as
-- in the source; the logging is left out.
pub mod Fill
pub mod Laws
use mt_shards_back_test.Base.{Bool, true, false, not, ◌&&◌, Option, none, some, Text, if◌then◌else◌}
use mt_shards_back_test.Base.Exec.{Exec, pure, throw, gets, modify, catch, ◌>>=◌, ◌>>◌}
use mt_shards_back_test.Resolver.Snapshot.{TenantSnapshot, Source, snap}
use mt_shards_back_test.Resolver.Store.{Store}
use mt_shards_back_test.Resolver.Cache.{
  Reading, hit, read_neg, read_hold, read_miss, get_snapshot, put, store_miss, enabled, nonzero,
}
use mt_shards_back_test.Resolver.Throttle.{Flight, single_flight, Limiter, allow}
use mt_shards_back_test.Resolver.Registry.{
  Exn, not_found, deferred, operational, redis_error, unexpected, Point, read_snapshot, write_fill,
  write_miss, Front, Fault, Settings, gate_enabled, Verdict, member, nonmember, unknown, call,
  check, trigger_warm, set_marker,
}

module _ (σ : Store) (settings : Settings) (fault : Fault σ.State)
    (limiter : Front σ.State → Limiter) where
  open σ use {State}

  abbrev pub Act : Type 0 → Type 0
  Act A = Exec Exn (Front State) A

  -- fill_cap.allow
  abbrev pub fill_cap : Front State → Bool × Front State
  unfolding allow
  fill_cap s =
      let r = allow settings.limits (limiter s) s.throttle in (r.0, record s { throttle = r.1 })

  abbrev pub write_negative : Text → Front State → Unit {0} × Front State
  unfolding store_miss
  write_negative h s = (tt, record s { cache = store_miss σ settings.config h s.cache })

  abbrev pub write_positive : Text → TenantSnapshot → Front State → Unit {0} × Front State
  unfolding put
  write_positive h t s = (tt, record s { cache = (put σ settings.config h (snap t) s.cache).1 })

  -- store_miss, which touches the backend only while misses are cached.
  unfoldable pub note_miss : Text → Act (Unit {0})
  unfolding write_negative ◌>>=◌ call
  note_miss h =
      if nonzero settings.config.neg_ttl
      then (call fault write_miss >> modify (write_negative h))
      else pure tt

  -- put, which touches the backend only while positives are cached.
  unfoldable pub note_hit : Text → TenantSnapshot → Act (Unit {0})
  unfolding write_positive ◌>>=◌ call
  note_hit h t =
      if not settings.config.warm && not (nonzero settings.config.pos_ttl)
      then pure tt
      else (call fault write_fill >> modify (write_positive h t))

  abbrev pub unresolved : Text → Exn → Act TenantSnapshot
  unfolding note_miss
  unresolved h not_found = note_miss h >> throw not_found
  unresolved h deferred = throw deferred
  unresolved h operational = throw operational
  unresolved h redis_error = throw redis_error
  unresolved h unexpected = throw unexpected

  -- _fill
  unfoldable pub fill : Text → Act TenantSnapshot → Act TenantSnapshot
  unfolding unresolved note_hit
  fill h db = catch db (unresolved h) >>= λ t. note_hit h t >> pure t

  unfoldable pub within_budget : Act TenantSnapshot → Bool → Act TenantSnapshot
  unfolding throw
  within_budget m allowed = if allowed then m else throw deferred

  unfoldable pub judged : Act TenantSnapshot → Verdict → Act TenantSnapshot
  unfolding within_budget fill_cap trigger_warm ◌>>=◌
  judged m member = m
  judged m nonmember = throw not_found
  judged m unknown = trigger_warm fault settings >> modify fill_cap >>= within_budget m

  -- What _via_cache does after a miss.
  unfoldable pub missed : Text → Flight Exn TenantSnapshot → Act TenantSnapshot → Act TenantSnapshot
  unfolding judged fill check single_flight
  missed h flight db =
      let m = single_flight flight (fill h db) in
      if gate_enabled settings then (check fault h >>= judged m) else m

  unfoldable pub read_as :
      Text → Flight Exn TenantSnapshot → Act TenantSnapshot → Reading → Act TenantSnapshot
  unfolding missed
  read_as h flight db (hit t) = pure t
  read_as h flight db read_neg = throw not_found
  read_as h flight db read_hold = missed h flight db
  read_as h flight db read_miss = missed h flight db

  -- _via_cache
  unfoldable pub via_cache :
      Text → Flight Exn TenantSnapshot → Act TenantSnapshot → Act TenantSnapshot
  unfolding read_as get_snapshot
  via_cache h flight db =
      call fault read_snapshot >> gets (λ s. get_snapshot σ h s.cache) >>= read_as h flight db

  abbrev pub fail_open : Act TenantSnapshot → Exn → Act TenantSnapshot
  fail_open db not_found = throw not_found
  fail_open db deferred = throw deferred
  fail_open db operational = throw operational
  fail_open db redis_error = db
  fail_open db unexpected = db

  unfoldable pub resolve :
      Text → Flight Exn TenantSnapshot → Act TenantSnapshot → Act TenantSnapshot
  unfolding via_cache enabled gate_enabled
  resolve h flight db =
      if not (enabled settings.config) && not (gate_enabled settings)
      then db
      else catch (via_cache h flight db) (fail_open db)

-- ===== src/Resolver/Registry.antt =====
-- tenants/resolver/registry.py: the gate's check of a host, its incremental maintenance and the warm
-- trigger, over the front's state: the snapshot cache, the Redis keys of the registry and those of
-- the throttle. `fault` says whether the operation at a point raises, which no model decides.
use mt_shards_back_test.Base.{
  ℕ, suc, Bool, true, not, ◌&&◌, Option, none, some, List, [], ◌∷◌, Text, text_eq, elem,
  if◌then◌else◌,
}
use mt_shards_back_test.Base.Exec.{Exec, pure, throw, gets, modify, catch, ◌>>=◌, ◌>>◌}
use mt_shards_back_test.Resolver.Cache.{Config}
use mt_shards_back_test.Resolver.Throttle.{Throttle, Limits}

-- What the resolve path raises: the caller's not_found, ResolveDeferred, the database's
-- OperationalError, RedisError, and any other Exception.
pub data Exn : Type 0 where
  not_found deferred operational redis_error unexpected : Exn

-- The calls of a backend.
pub data Point : Type 0 where
  read_snapshot read_registry set_marker publish write_fill write_miss membership : Point

-- `hosts` is the SET treg:hosts, none when it is absent; `enqueued` counts the reconcile tasks.
pub record Front (C : Type 0) : Type 0 where
  pub cache : C
  pub hosts : Option (List Text)
  pub dirty : ℕ
  pub warm_pending : Bool
  pub enqueued : ℕ
  pub throttle : Throttle

abbrev pub Fault : Type 0 → Type 0
Fault C = Point → Front C → Option Exn

-- flags.gate_enabled is the setting GATE_ENABLED and the cache's WARM_ENABLED.
pub record Settings : Type 0 where
  pub config : Config
  pub gate : Bool
  pub limits : Limits

unfoldable pub gate_enabled : Settings → Bool
gate_enabled settings = settings.gate && settings.config.warm

pub data Verdict : Type 0 where
  member nonmember unknown : Verdict

module _ {C : Type 0} (fault : Fault C) where
  abbrev pub raised : Option Exn → Exec Exn (Front C) (Unit {0})
  raised none = pure tt
  raised (some x) = throw x

  unfoldable pub call : Point → Exec Exn (Front C) (Unit {0})
  unfolding pure throw
  call p s = raised (fault p s) s

  abbrev pub verdict_of : Text → Option (List Text) → Verdict
  verdict_of hostname none = unknown
  verdict_of hostname (some hosts) = if elem hostname hosts then member else nonmember

  abbrev pub except_redis : {A : Type 0} → Exec Exn (Front C) A → Exn → Exec Exn (Front C) A
  except_redis h redis_error = h
  except_redis h not_found = throw not_found
  except_redis h deferred = throw deferred
  except_redis h operational = throw operational
  except_redis h unexpected = throw unexpected

  -- HostRegistry.check: the fault of the pipeline is caught only when it is a RedisError.
  unfoldable pub check : Text → Exec Exn (Front C) Verdict
  unfolding call ◌>>=◌
  check hostname =
      catch (call read_registry >> gets (λ s. verdict_of hostname s.hosts))
        (except_redis (pure unknown))

  abbrev pub enqueue : Front C → Unit {0} × Front C
  enqueue s = (tt, record s { enqueued = suc s.enqueued })

  -- The SET NX of the marker, and whether it was set.
  abbrev pub set_pending : Front C → Bool × Front C
  set_pending s = (not s.warm_pending, record s { warm_pending = true })

  unfoldable pub mark_and_publish : Exec Exn (Front C) (Unit {0})
  unfolding call ◌>>=◌
  mark_and_publish = call set_marker >> modify set_pending >>= λ set.
      if set then (call publish >> modify enqueue) else pure tt

  -- HostRegistry.trigger_warm, which raises nothing.
  unfoldable pub trigger_warm : Settings → Exec Exn (Front C) (Unit {0})
  unfolding mark_and_publish
  trigger_warm settings =
      if not settings.config.warm then pure tt else catch mark_and_publish (λ x. pure tt)

  abbrev pub without : Text → List Text → List Text
  without h [] = []
  without h (x ∷ xs) = let rest = without h xs in if text_eq x h then rest else x ∷ rest

  -- An empty SET does not exist.
  abbrev pub kept : List Text → Option (List Text)
  kept [] = none
  kept (x ∷ xs) = some (x ∷ xs)

  abbrev pub sadd : Text → Option (List Text) → Option (List Text)
  sadd h none = none
  sadd h (some hosts) = some (if elem h hosts then hosts else h ∷ hosts)

  abbrev pub srem : Text → Option (List Text) → Option (List Text)
  srem h none = none
  srem h (some hosts) = kept (without h hosts)

  -- _apply_membership: an absent SET is never built by an addition.
  unfoldable pub apply_membership : Bool → Text → Front C → Front C
  apply_membership adds h s = record s {
    hosts = if adds then sadd h s.hosts else srem h s.hosts;
    dirty = suc s.dirty;
  }

  abbrev pub changed : Bool → Text → Front C → Unit {0} × Front C
  unfolding apply_membership
  changed adds h s = (tt, apply_membership adds h s)

  -- HostRegistry.add and HostRegistry.remove
  unfoldable pub update : Settings → Bool → Text → Exec Exn (Front C) (Unit {0})
  unfolding call ◌>>=◌ changed
  update settings adds h =
      if not settings.config.warm
      then pure tt
      else catch (call membership >> modify (changed adds h)) (except_redis (pure tt))

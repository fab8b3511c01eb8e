-- ===== src/Tasks/Worker.antt =====
-- tenants/celery/task.py: TenantTask over the snapshot cache, the worker's own cache and the contexts
-- of tenants/context.py. What the database answers for a schema is a parameter.
pub mod Laws
pub mod Stamp
use mt_shards_back_test.Base.{
  ℕ, Bool, true, false, Option, none, some, is_some, Text, text_eq, if◌then◌else◌, List, [], ◌∷◌,
}
use mt_shards_back_test.Base.Exec.{Outcome, ok, raise, Exec, pure, gets, modify, ◌>>=◌, ◌>>◌}
use mt_shards_back_test.Resolver.Snapshot.{TenantSnapshot}
use mt_shards_back_test.Resolver.Store.{Store}
use mt_shards_back_test.Resolver.Cache.{
  Config, enabled, Reading, hit, read_neg, read_hold, read_miss, get_schema_snapshot,
}
use mt_shards_back_test.Routing.Context.{
  Fault, Backend, Axes, Act, default, use_alias, tenant_context, current_schema_name,
}
use mt_shards_back_test.Fanout.Dispatch.{
  Headers, header, with_header, schema_header, headers_or_empty,
}
use mt_shards_back_test.Tasks.Local.{Entry, get, set}

-- A worker: its axes, its local cache, the snapshot cache that it shares with all, and the clock.
pub record Worker (Conn State : Type 0) : Type 0 where
  pub axes : Axes Conn
  pub local : List (Entry TenantSnapshot)
  pub shared : State
  pub now : ℕ

module _ (β : Backend) (σ : Store) (cfg : Config) where
  abbrev pub Task : Type 0 → Type 0
  Task A = Exec Fault (Worker β.Conn σ.State) A

  -- Code that sees the axes only.
  abbrev pub put_axes :
      {A : Type 0}
      → Outcome Fault A × Axes β.Conn
      → Worker β.Conn σ.State
      → Outcome Fault A × Worker β.Conn σ.State
  put_axes (o, axes) w = (o, record w { axes = axes })

  unfoldable pub on_axes : {A : Type 0} → Act β A → Task A
  on_axes m w = put_axes (m w.axes) w

  -- headers_with_schema
  unfoldable pub headers_with_schema : Option Headers → Act β Headers
  unfolding current_schema_name header with_header pure ◌>>=◌
  headers_with_schema headers =
      if is_some (header schema_header (headers_or_empty headers))
      then pure (headers_or_empty headers)
      else (current_schema_name β >>= λ schema.
          pure (with_header schema_header schema (headers_or_empty headers)))

  abbrev pub read_local :
      Text → Worker β.Conn σ.State → Option TenantSnapshot × Worker β.Conn σ.State
  read_local schema w = let (t, items) = get schema w.now w.local in (t, record w { local = items })

  abbrev pub fill_local :
      ℕ → Text → TenantSnapshot → Worker β.Conn σ.State → Unit {0} × Worker β.Conn σ.State
  fill_local seconds schema t w = (tt, record w { local = set schema t seconds w.now w.local })

  module _ (db_get : Text → Task TenantSnapshot) (seconds : ℕ) where
    abbrev pub or_database : Text → Option TenantSnapshot → Task TenantSnapshot
    or_database schema (some t) = pure t
    or_database schema none = db_get schema >>= λ t. modify (fill_local seconds schema t) >> pure t

    -- The local cache, and the database behind it.
    unfoldable pub fallback : Text → Task TenantSnapshot
    unfolding pure modify get set ◌>>=◌
    fallback schema = modify (read_local schema) >>= or_database schema

    abbrev pub by_reading : Text → Reading → Task TenantSnapshot
    by_reading schema (hit t) = pure t
    by_reading schema read_hold = db_get schema
    by_reading schema read_neg = fallback schema
    by_reading schema read_miss = fallback schema

    unfoldable pub get_tenant_for_schema : Text → Task TenantSnapshot
    unfolding fallback enabled get_schema_snapshot gets ◌>>=◌
    get_tenant_for_schema schema =
        if enabled cfg
        then (gets (λ w. get_schema_snapshot σ schema w.shared) >>= by_reading schema)
        else fallback schema

    -- TenantTask.__call__, with what _schema_from_request gave
    unfoldable pub call : {A : Type 0} → Option Text → Act β A → Task A
    unfolding get_tenant_for_schema use_alias tenant_context on_axes ◌>>=◌
    call none body = on_axes body
    call (some []) body = on_axes body
    call (some (c ∷ schema)) body =
        if text_eq (c ∷ schema) β.public
        then on_axes (use_alias β default body)
        else (get_tenant_for_schema (c ∷ schema) >>= λ t. on_axes (tenant_context β t none body))

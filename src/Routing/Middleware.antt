-- ===== src/Routing/Middleware.antt =====
-- tenants/middleware.py, TenantShardRoutingMiddleware.__call__: the rest of the stack, on the axes of
-- the request's tenant. A connection object is the one that its alias names, before and after.
pub mod Laws
use mt_shards_back_test.Base.{Option, none, some, text_eq, if◌then◌else◌}
use mt_shards_back_test.Base.Exec.{gets, finally, ◌>>=◌, ◌>>◌}
use mt_shards_back_test.Resolver.Snapshot.{TenantSnapshot}
use mt_shards_back_test.Routing.Context.{
  Backend, Act, default, on_connection, use_alias, tenant_context,
}

module _ (β : Backend) where
  open β use {bound, set_schema_to_public}

  -- The connection first: a missing alias raises before either axis is touched.
  unfoldable pub routed : {A : Type 0} → TenantSnapshot → Act β A → Act β A
  unfolding tenant_context on_connection ◌>>=◌
  routed t get_response =
      on_connection β t.shard.alias (gets (λ c. c))
      >> finally (tenant_context β t none get_response)
          (λ _. on_connection β t.shard.alias set_schema_to_public)

  -- TenantShardRoutingMiddleware.__call__
  unfoldable pub call : {A : Type 0} → Option TenantSnapshot → Act β A → Act β A
  unfolding use_alias routed
  call none get_response = use_alias β default get_response
  call (some t) get_response =
      if text_eq t.shard.alias default
      then use_alias β default get_response
      else routed t get_response

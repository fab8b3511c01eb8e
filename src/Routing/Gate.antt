-- ===== src/Routing/Gate.antt =====
-- tenants/middleware.py, ShardAwareTenantMiddleware.process_request: which answer a request gets
-- before any view, by its path, by what the resolution of its host did and by the tenant's status.
pub mod Laws
use mt_shards_back_test.Base.{
  ℕ, Bool, true, false, ◌&&◌, ◌||◌, Option, none, some, Text, codes, text_eq, elem, starts_with,
  if◌then◌else◌, List, [], ◌∷◌,
}
use mt_shards_back_test.Migrator.Db.{
  Status, deactivated, active, failed, maintenance, status_eq, status_in,
}
use mt_shards_back_test.Resolver.Snapshot.{TenantSnapshot}

-- A response by its status, its code and its Retry-After; `upstream` is one of django-tenants.
pub data Response : Type 0 where
  alive : Response
  refusal : ℕ → Text → Option ℕ → Response
  upstream : ℕ → Response

-- What super().process_request did: it returned, with request.tenant set or not, it answered
-- itself, or it raised Http404, ResolveDeferred or one of the four database errors.
pub data Resolution : Type 0 where
  resolved : Option TenantSnapshot → Resolution
  answered : ℕ → Resolution
  not_found deferred db_error : Resolution

abbrev pub health_paths : List Text
health_paths = codes "/api/health/" ∷ []

unfoldable pub is_admin : Text → Bool
is_admin path = text_eq path (codes "/admin") || starts_with path (codes "/admin/")

unfoldable pub operator_owned : Status → Bool
operator_owned st = status_in st (failed ∷ maintenance ∷ [])

abbrev pub not_ready : Status → Response
not_ready st =
    if status_eq st maintenance
    then refusal 503 (codes "tenant_maintenance") (some 600)
    else refusal 503 (codes "tenant_not_ready") (some 300)

unfoldable pub gate_inactive : Text → Status → Option Response
unfolding is_admin operator_owned
gate_inactive path st = if operator_owned st && is_admin path then none else some (not_ready st)

unfoldable pub gate_status : Text → Status → Option Response
unfolding gate_inactive
gate_status path st =
    if status_eq st deactivated
    then some (refusal 403 (codes "tenant_deactivated") none)
    else (if status_eq st active then none else gate_inactive path st)

unfoldable pub gate_tenant : Text → Text → Option TenantSnapshot → Option Response
unfolding gate_status
gate_tenant public path none = none
gate_tenant public path (some t) =
    if text_eq t.schema_name public then none else gate_status path t.status

unfoldable pub after_resolution : Text → Text → Resolution → Option Response
unfolding gate_tenant
after_resolution public path (resolved t) = gate_tenant public path t
after_resolution public path (answered r) = some (upstream r)
after_resolution public path not_found = some (refusal 404 (codes "tenant_not_found") none)
after_resolution public path deferred =
    some (refusal 503 (codes "tenant_resolve_deferred") (some 5))
after_resolution public path db_error = some (refusal 500 (codes "database_error") none)

-- `none` hands the request on to the rest of the stack.
unfoldable pub process_request : Text → Text → Resolution → Option Response
unfolding after_resolution
process_request public path r =
    if elem path health_paths then some alive else after_resolution public path r

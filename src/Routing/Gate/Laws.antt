-- ===== src/Routing/Gate/Laws.antt =====
-- Which requests the status gate hands on.
use mt_shards_back_test.Base.{
  ◌≡◌, refl, Bool, true, false, ◌&&◌, ◌||◌, not, none, some, Text, text_eq, elem, is_none, arith,
}
use mt_shards_back_test.Migrator.Db.{
  Status, new, pending, active, deactivated, failed, maintenance, status_eq, status_in,
}
use mt_shards_back_test.Routing.Gate.{
  Resolution, resolved, answered, not_found, deferred, db_error, health_paths, is_admin,
  gate_status, process_request,
}

-- The states in which a tenant's host is served: ACTIVE, and for the tenant's own admin also the
-- two states that an operator works on.
abbrev pub open_for : Text → Status → Bool
open_for path active = true
open_for path failed = is_admin path
open_for path maintenance = is_admin path
open_for path _ = false

abbrev pub serves : Text → Text → Resolution → Bool
serves public path (resolved none) = true
serves public path (resolved (some t)) = text_eq t.schema_name public || open_for path t.status
serves public path _ = false

gate_status-none : (path : Text) (st : Status) → is_none (gate_status path st) ≡ open_for path st
unfolding gate_status status_eq status_in
gate_status-none path new = refl
gate_status-none path pending = refl
gate_status-none path active = refl
gate_status-none path deactivated = refl
gate_status-none path failed = ground arith
gate_status-none path maintenance = ground arith

-- A request is handed on exactly when its path is no health check, its host was resolved, and it
-- has no tenant, or the tenant is the public one, or the tenant is ACTIVE, or it is FAILED or in
-- MAINTENANCE and the path is the tenant's own admin.
pub process_request-none :
    (public path : Text) (r : Resolution)
    → is_none (process_request public path r)
      ≡ (not (elem path health_paths) && serves public path r)
unfolding process_request
process_request-none public path (resolved none) = ground arith
process_request-none public path (resolved (some t)) =
    ground (arith, gate_status-none path t.status)
process_request-none public path (answered r) = ground arith
process_request-none public path not_found = ground arith
process_request-none public path deferred = ground arith
process_request-none public path db_error = ground arith

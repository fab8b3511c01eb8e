-- ===== src/Tests/Routing.antt =====
-- The routing layer over a backend whose connections are a tenant and a schema.
use mt_shards_back_test.Base.{
  ◌≡◌, refl, false, not, ◌&&◌, Option, none, some, is_none, Text, codes, elem, [], ◌∷◌, text_eq,
}
use mt_shards_back_test.Base.Exec.{ok, throw, Exec}
use mt_shards_back_test.Base.Exec.Keeps.{Keeps-throw}
use mt_shards_back_test.Migrator.Db.{maintenance, active}
use mt_shards_back_test.Resolver.Snapshot.{TenantSnapshot}
use mt_shards_back_test.Routing.Context.{Fault, raised, Backend, Axes}
use mt_shards_back_test.Routing.Context.Laws.{IsAt}
use mt_shards_back_test.Routing.Gate.{resolved, process_request, health_paths}
use mt_shards_back_test.Routing.Gate.Laws.{process_request-none, serves}
use mt_shards_back_test.Routing.Middleware.{call}
use mt_shards_back_test.Routing.Middleware.Laws.{call_public}
use mt_shards_back_test.Routing.Router.{
  Model, Settings, AppConfig, strict_route_labels, db_for_read, allow_migrate, on_public,
}
use mt_shards_back_test.Routing.Router.Laws.{request_query, db_for_read-strict}
use mt_shards_back_test.Routing.Router.Migrations.{allow_migrate_lem, Placed, seeds_public}

pub record Connection : Type 0 where
  pub tenant : Option Text
  pub schema : Text

abbrev pub public_name : Text
public_name = codes "public"

abbrev pub bind : Text → Exec Fault Connection (Unit {0})
bind b c = (ok tt, record { tenant = some b; schema = b })

abbrev pub rename : Text → Exec Fault Connection (Unit {0})
rename n c = (ok tt, record { tenant = none; schema = n })

abbrev pub backend : Backend
backend = record {
  Conn = Connection;
  Bound = Text;
  public = public_name;
  bound = λ c. c.tenant;
  schema_name = λ c. c.schema;
  of_tenant = λ t. t.schema_name;
  schema_of = λ b. b;
  set_tenant = bind;
  set_schema = rename;
  set_schema_to_public = rename public_name;
  schema_of-of_tenant = λ t. refl;
  set_tenant_lem = λ b c h. refl;
  set_schema_lem = λ n c h. refl;
  set_schema_to_public_lem = λ c h. refl;
}

abbrev pub acme : TenantSnapshot
acme = record {
  id = 7;
  schema_name = codes "acme";
  status = active;
  shard = record { id = 2; alias = codes "shard2" };
  domain_url = none;
}

abbrev pub conn : Connection
conn = record { tenant = none; schema = public_name }

abbrev pub axes : Axes Connection
axes = record { current = none; connections = λ a. some conn }

repaired : TenantSnapshot
repaired = record acme { status = maintenance }

process_request_example :
    is_none (process_request public_name (codes "/admin/login") (resolved (some repaired))) ≡ (
      not (elem (codes "/admin/login") health_paths)
      && serves public_name (codes "/admin/login") (resolved (some repaired)))
process_request_example =
    process_request-none public_name (codes "/admin/login") (resolved (some repaired))

-- A view that raises.
abbrev pub view : Exec Fault (Axes Connection) Text
view = throw (raised 5)

call_public_example :
    IsAt backend (codes "shard2") public_name (call backend (some acme) view axes).1
unfolding text_eq
call_public_example =
    call_public backend acme view axes refl refl (λ d. refl) (Keeps-throw (raised 5))

abbrev cars : Model
cars = record { app_label = codes "cars"; label_lower = codes "cars.car" }

abbrev config : AppConfig
config = record {
  name = codes "cars";
  label = codes "cars";
  class_path = codes "cars.apps.CarsConfig";
}

abbrev settings : Settings
settings = record {
  shared_apps = codes "tenants" ∷ [];
  tenant_apps = codes "cars" ∷ [];
  tenant_strict_route_apps = codes "cars.apps.CarsConfig" ∷ [];
  public_model_guard = codes "raise";
  public_model_allowlist = [];
  app_configs = config ∷ [];
  tenant_types = none;
}

abbrev tenant_type : Connection → Text
tenant_type c = codes "standard"

request_query_example :
    (call backend (some acme) (db_for_read backend settings elem tenant_type cars) axes).0
    ≡ ok (codes "shard2")
unfolding text_eq elem
request_query_example =
    request_query backend settings elem tenant_type acme cars conn axes refl refl refl refl refl
      (λ d. refl) (λ d. refl) refl

-- The router inside a request.
abbrev pub served : Axes Connection
served = record {
  current = some (codes "shard2");
  connections = λ a. some (record { tenant = some (codes "acme"); schema = codes "acme" });
}

db_for_read-strict_example :
    (served.current ≡ some (codes "shard2"))
    × (on_public backend settings elem tenant_type (served.connections (codes "shard2")) ≡ false)
unfolding text_eq elem db_for_read strict_route_labels
db_for_read-strict_example =
    db_for_read-strict backend settings elem tenant_type cars (codes "cars" ∷ []) (codes "shard2")
      served refl (refl, refl, refl, refl, refl) refl

allow_migrate_example :
    Placed backend settings elem tenant_type
      (codes "shard2")
      (record { tenant = some (codes "acme"); schema = codes "acme" })
    × (seeds_public backend settings elem tenant_type
          (codes "cars")
          none
          (record { tenant = some (codes "acme"); schema = codes "acme" })
          (codes "cars" ∷ [])
        ≡ false)
unfolding text_eq elem allow_migrate strict_route_labels
allow_migrate_example =
    allow_migrate_lem backend settings elem tenant_type (codes "shard2") (codes "cars") none
      (record { tenant = some (codes "acme"); schema = codes "acme" }) (codes "cars" ∷ []) served
      refl refl refl

-- ===== src/Routing/Router.antt =====
-- tenants/routers.py: TenantDatabaseRouter over the two axes. The method app_in_list of the router
-- that it extends is a parameter, as is the type of a connection's tenant.
pub mod Laws
pub mod Migrations
use mt_shards_back_test.Base.{
  Bool, true, false, not, ◌&&◌, Option, none, some, is_none, Text, codes, text_eq, elem,
  if◌then◌else◌, List, [], ◌∷◌,
}
use mt_shards_back_test.Base.Exec.{Outcome, ok, raise, pure, throw, lift, gets, ◌>>=◌, ◌>>◌}
use mt_shards_back_test.Routing.Context.{
  Fault, no_connection, no_context, public_denied, improperly_configured, key_error, Backend, Axes,
  default, or_text, bound_alias, Act,
}

pub record AppConfig : Type 0 where
  pub name : Text
  pub label : Text
  pub class_path : Text

-- What the router reads of a model's _meta.
pub record Model : Type 0 where
  pub app_label : Text
  pub label_lower : Text

-- The settings that the router reads, and the installed apps. `tenant_types` is none without
-- multi-type tenants, else the APPS of a type.
pub record Settings : Type 0 where
  pub shared_apps : List Text
  pub tenant_apps : List Text
  pub tenant_strict_route_apps : List Text
  pub public_model_guard : Text
  pub public_model_allowlist : List Text
  pub app_configs : List AppConfig
  pub tenant_types : Option (Text → Option (List Text))

-- A dict: what was written last is found first.
abbrev pub Entries : Type 0
Entries = List (Text × Text)

unfoldable pub collect : Entries → List AppConfig → Entries
collect es [] = es
collect es (cfg ∷ cfgs) =
    collect ((cfg.class_path, cfg.label) ∷ (cfg.label, cfg.label) ∷ (cfg.name, cfg.label) ∷ es) cfgs

unfoldable pub entry_label : Entries → Text → Option Text
entry_label [] entry = none
entry_label ((key, label) ∷ es) entry =
    if text_eq key entry then some label else entry_label es entry

abbrev pub add_label : Option Text → Outcome Fault (List Text) → Outcome Fault (List Text)
add_label none rest = raise improperly_configured
add_label (some label) (raise x) = raise x
add_label (some label) (ok labels) = ok (label ∷ labels)

unfoldable pub resolve_labels : Entries → List Text → Outcome Fault (List Text)
unfolding entry_label
resolve_labels es [] = ok []
resolve_labels es (entry ∷ entries) =
    let rest = resolve_labels es entries in add_label (entry_label es entry) rest

unfoldable pub strict_route_labels : Settings → Outcome Fault (List Text)
unfolding resolve_labels collect
strict_route_labels st = resolve_labels (collect [] st.app_configs) st.tenant_strict_route_apps

module _ (β : Backend) (st : Settings) (app_in_list : Text → List Text → Bool)
    (tenant_type : β.Conn → Text) where
  open β use {Conn, public, schema_name}

  abbrev pub on_public : Option Conn → Bool
  on_public none = false
  on_public (some c) = text_eq (schema_name c) public

  abbrev pub shared_only : Text → Bool
  shared_only label = app_in_list label st.shared_apps && not (app_in_list label st.tenant_apps)

  -- The check of the label and of the allowlist, on the public schema.
  abbrev pub deny : Model → List Text → Act β (Unit {0})
  deny model labels =
      if not (elem model.app_label labels)
      then pure tt
      else (if elem model.label_lower st.public_model_allowlist
          then pure tt
          else (if text_eq st.public_model_guard (codes "warn")
              then pure tt
              else throw public_denied))

  abbrev pub guard_at : Model → Bool → Act β (Unit {0})
  guard_at model false = pure tt
  guard_at model true = lift (strict_route_labels st) >>= deny model

  unfoldable pub guard_public : Model → Text → Act β (Unit {0})
  unfolding ◌>>=◌
  guard_public model alias =
      if text_eq st.public_model_guard (codes "off")
      then pure tt
      else (gets (λ s. on_public (s.connections alias)) >>= guard_at model)

  abbrev pub unbound : Model → List Text → Act β Text
  unbound model labels = if elem model.app_label labels then throw no_context else pure default

  abbrev pub target : Model → Option Text → Act β Text
  target model none = lift (strict_route_labels st) >>= unbound model
  target model (some alias) = pure alias

  unfoldable pub db_for_read : Model → Act β Text
  unfolding guard_public ◌>>=◌ bound_alias
  db_for_read model =
      if shared_only model.app_label
      then pure default
      else (gets bound_alias >>= λ alias.
          guard_public model (or_text alias default) >> target model alias)

  unfoldable pub db_for_write : Model → Act β Text
  unfolding db_for_read
  db_for_write model = db_for_read model

  abbrev pub apps_of : Option (List Text) → Act β (List Text)
  apps_of none = throw key_error
  apps_of (some apps) = pure apps

  -- installed_apps
  abbrev pub installed_apps : Conn → Option (Text → Option (List Text)) → Act β (List Text)
  installed_apps c none = pure (if on_public (some c) then st.shared_apps else st.tenant_apps)
  installed_apps c (some types) =
      apps_of (types (if on_public (some c) then public else tenant_type c))

  -- The last two tests: the app is installed, and the database fits the schema.
  abbrev pub fits : Text → Text → Conn → List Text → Act β Bool
  fits db label c apps =
      if not (app_in_list label apps)
      then pure false
      else (if on_public (some c)
          then pure (text_eq db default)
          else pure (not (text_eq db default)))

  abbrev pub migrate_installed : Text → Text → Conn → Act β Bool
  migrate_installed db label c = installed_apps c st.tenant_types >>= fits db label c

  -- A data migration on the public schema: refused for the strict apps.
  abbrev pub migrate_data : Text → Text → Conn → List Text → Act β Bool
  migrate_data db label c labels =
      if elem label labels then pure false else migrate_installed db label c

  abbrev pub allow_migrate_on : Text → Text → Option Text → Option Conn → Act β Bool
  allow_migrate_on db label name none = throw no_connection
  allow_migrate_on db label name (some c) =
      if is_none name && on_public (some c)
      then (lift (strict_route_labels st) >>= migrate_data db label c)
      else migrate_installed db label c

  unfoldable pub allow_migrate : Text → Text → Option Text → Act β Bool
  unfolding ◌>>=◌
  allow_migrate db label name = gets (λ s. s.connections db) >>= allow_migrate_on db label name

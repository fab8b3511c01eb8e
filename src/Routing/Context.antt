-- ===== src/Routing/Context.antt =====
-- tenants/context.py: the router axis `current_db` and the schema of each connection, and the
-- context managers that switch both. A `with` block is a function of its body, and
-- a connection object is the one that its alias names, before and after.
pub mod Laws
use mt_shards_back_test.Base.{
  ℕ, ◌≡◌, Bool, true, false, Option, none, some, Text, codes, text_eq, if◌then◌else◌, [], ◌∷◌,
}
use mt_shards_back_test.Base.Exec.{
  Outcome, ok, raise, Exec, pure, throw, gets, modify, finally, ◌>>=◌, ◌>>◌,
}
use mt_shards_back_test.Resolver.Snapshot.{TenantSnapshot}

-- ConnectionDoesNotExist, Tenant.DoesNotExist, the refusals of the router, and what a body or
-- a backend raises.
pub data Fault : Type 0 where
  no_connection tenant_missing no_context public_denied improperly_configured key_error : Fault
  raised : ℕ → Fault

-- A connection of the django-tenants backend: `Bound` is what its attribute `tenant` holds. What
-- setting the schema promises, it promises when it returns.
pub record Backend : Type 1 where
  pub Conn : Type 0
  pub Bound : Type 0
  pub public : Text
  pub bound : Conn → Option Bound
  pub schema_name : Conn → Text
  pub of_tenant : TenantSnapshot → Bound
  pub schema_of : Bound → Text
  pub set_tenant : Bound → Exec Fault Conn (Unit {0})
  pub set_schema : Text → Exec Fault Conn (Unit {0})
  pub set_schema_to_public : Exec Fault Conn (Unit {0})
  pub schema_of-of_tenant : (t : TenantSnapshot) → schema_of (of_tenant t) ≡ t.schema_name
  pub set_tenant_lem :
      (b : Bound) (c : Conn)
      → (set_tenant b c).0 ≡ ok tt
      → schema_name (set_tenant b c).1 ≡ schema_of b
  pub set_schema_lem :
      (n : Text) (c : Conn) → (set_schema n c).0 ≡ ok tt → schema_name (set_schema n c).1 ≡ n
  pub set_schema_to_public_lem :
      (c : Conn)
      → (set_schema_to_public c).0 ≡ ok tt
      → schema_name (set_schema_to_public c).1 ≡ public

-- `current` is none where no routing context is established; `connections` has the aliases of
-- settings.DATABASES.
pub record Axes (Conn : Type 0) : Type 0 where
  pub current : Option Text
  pub connections : Text → Option Conn

abbrev pub default : Text
default = codes "default"

-- `a or b`, of a text that may be None
abbrev pub or_text : Option Text → Text → Text
or_text none b = b
or_text (some a) b = if text_eq a (codes "") then b else a

unfoldable pub active_alias : {C : Type 0} → Axes C → Text
active_alias s = or_text s.current default

unfoldable pub bound_alias : {C : Type 0} → Axes C → Option Text
bound_alias s = s.current

abbrev pub bind_alias : {C : Type 0} → Option Text → Axes C → Unit {0} × Axes C
bind_alias alias s = (tt, record s { current = alias })

abbrev pub put_connection : {C : Type 0} → Text → C → Axes C → Axes C
put_connection alias c s = record s {
  connections = λ a. if text_eq a alias then some c else s.connections a;
}

module _ (β : Backend) where
  open β use {
    Conn, Bound, public, bound, schema_name, of_tenant, set_tenant, set_schema,
    set_schema_to_public,
  }

  abbrev pub Act : Type 0 → Type 0
  Act A = Exec Fault (Axes Conn) A

  abbrev pub update :
      {A : Type 0} → Text → Outcome Fault A × Conn → Axes Conn → Outcome Fault A × Axes Conn
  update alias (o, c) s = (o, put_connection alias c s)

  abbrev pub on_found :
      {A : Type 0}
      → Text
      → Exec Fault Conn A
      → Option Conn
      → Axes Conn
      → Outcome Fault A × Axes Conn
  on_found alias m none s = (raise no_connection, s)
  on_found alias m (some c) s = update alias (m c) s

  -- connections[alias], and what is done with it.
  unfoldable pub on_connection : {A : Type 0} → Text → Exec Fault Conn A → Act A
  on_connection alias m s = on_found alias m (s.connections alias) s

  abbrev pub named : Text → Text → Text
  named public schema = or_text (some schema) public

  unfoldable pub schema_at : Option Text → Act Text
  unfolding pure on_connection
  schema_at none = pure public
  schema_at (some alias) = on_connection alias (gets (λ c. named public (schema_name c)))

  unfoldable pub current_schema_name : Act Text
  unfolding schema_at ◌>>=◌ bound_alias
  current_schema_name = gets bound_alias >>= schema_at

  unfoldable pub use_alias : {A : Type 0} → Text → Act A → Act A
  unfolding ◌>>=◌
  use_alias alias body = gets (λ s. s.current) >>= λ token.
      modify (bind_alias (some alias)) >> finally body (λ _. modify (bind_alias token))

  abbrev pub restore : Option Bound → Exec Fault Conn (Unit {0})
  restore none = set_schema_to_public
  restore (some b) = set_tenant b

  -- The `finally` of _switch: the schema of the connection, then the token.
  unfoldable pub leave : Text → Option Bound → Option Text → Act (Unit {0})
  unfolding on_connection ◌>>=◌
  leave database prev token = on_connection database (restore prev) >> modify (bind_alias token)

  unfoldable pub switch : {A : Type 0} → Text → Exec Fault Conn (Unit {0}) → Act A → Act A
  unfolding leave on_connection ◌>>=◌
  switch database apply_to body = on_connection database (gets bound) >>= λ prev.
      gets (λ s. s.current) >>= λ token.
      modify (bind_alias (some database))
      >> finally (on_connection database apply_to >> body) (λ _. leave database prev token)

  unfoldable pub tenant_context : {A : Type 0} → TenantSnapshot → Option Text → Act A → Act A
  unfolding switch
  tenant_context t database body =
      switch (or_text database t.shard.alias) (set_tenant (of_tenant t)) body

  abbrev pub registered : Option Text → Act Text
  registered none = throw tenant_missing
  registered (some alias) = pure alias

  abbrev pub registry_database : (Text → Act (Option Text)) → Text → Act Text
  registry_database lookup schema =
      if text_eq schema public then pure default else (lookup schema >>= registered)

  -- `lookup` is the query of the tenant registry for the alias of a schema's shard.
  unfoldable pub resolve_database : (Text → Act (Option Text)) → Text → Option Text → Act Text
  unfolding ◌>>=◌ throw pure
  resolve_database lookup schema none = registry_database lookup schema
  resolve_database lookup schema (some []) = registry_database lookup schema
  resolve_database lookup schema (some (c ∷ alias)) = pure (c ∷ alias)

  unfoldable pub schema_context :
      {A : Type 0} → (Text → Act (Option Text)) → Text → Option Text → Act A → Act A
  unfolding switch resolve_database
  schema_context lookup schema database body =
      resolve_database lookup schema database >>= λ db. switch db (set_schema schema) body

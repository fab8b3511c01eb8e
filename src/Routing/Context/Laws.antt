-- ===== src/Routing/Context/Laws.antt =====
-- What tenant_context makes of its body and of the two axes (tenants/context.py).
use mt_shards_back_test.Base.{◌≡◌, refl, ◌∙◌, true, Option, none, some, Text, text_eq_refl, is_some}
use mt_shards_back_test.Base.Exec.{Outcome, ok, Exec, finally, ◌>>=◌}
use mt_shards_back_test.Base.Exec.Finally.{finally-returned}
use mt_shards_back_test.Base.Exec.Keeps.{Keeps}
use mt_shards_back_test.Resolver.Snapshot.{TenantSnapshot}
use mt_shards_back_test.Routing.Context.{
  Fault, Backend, Axes, Act, put_connection, on_connection, restore, leave, switch, tenant_context,
}

module _ (β : Backend) where
  open β use {
    Conn, Bound, bound, public, schema_name, schema_of, of_tenant, set_tenant, set_tenant_lem,
    schema_of-of_tenant, set_schema_to_public_lem,
  }

  -- The connection of an alias is there and its schema is `schema`.
  abbrev pub IsAt : Text → Text → Axes Conn → Type 0
  IsAt alias schema s = (c : Conn) × (s.connections alias ≡ some c) × (schema_name c ≡ schema)

  abbrev pub Present : Text → Axes Conn → Type 0
  Present alias s = is_some (s.connections alias) ≡ true

  -- The schema that `restore` goes back to.
  abbrev pub previous : Option Bound → Text
  previous none = public
  previous (some b) = schema_of b

  restore-previous :
      (prev : Option Bound) (c : Conn)
      → (restore β prev c).0 ≡ ok tt
      → schema_name (restore β prev c).1 ≡ previous prev
  restore-previous none c h = set_schema_to_public_lem c h
  restore-previous (some b) c h = set_tenant_lem b c h

  pub on_connection-some :
      {A : Type 0} (alias : Text) (m : Exec Fault Conn A) (c : Conn) (s : Axes Conn)
      → s.connections alias ≡ some c
      → on_connection β alias m s ≡ ((m c).0, put_connection alias (m c).1 s)
  unfolding on_connection
  on_connection-some alias m c s h = rw h refl

  leave_lem :
      (alias : Text) (prev : Option Bound) (token : Option Text) (c : Conn) (s : Axes Conn)
      → s.connections alias ≡ some c
      → (restore β prev c).0 ≡ ok tt
      → ((leave β alias prev token s).0 ≡ ok tt)
        × ((leave β alias prev token s).1.current ≡ token)
        × IsAt alias (previous prev) (leave β alias prev token s).1
  unfolding leave ◌>>=◌
  leave_lem alias prev token c s h r = rw (on_connection-some alias (restore β prev) c s h) (
      rw r (
        refl,
        refl,
        ((restore β prev c).1, rw (text_eq_refl alias) refl, restore-previous prev c r),
      ))

  -- The connections of an alias are still there when a body ends.
  abbrev pub Holds : {A : Type 0} → Text → Act β A → Type 0
  Holds alias m = Keeps (Present alias) m

  pub present-some : (o : Option Conn) → is_some o ≡ true → (c : Conn) × (o ≡ some c)
  present-some none h = absurd (cc)
  present-some (some c) h = (c, refl)

  -- What a body and its `finally` clause make of a state in which the body starts.
  left :
      {A : Type 0} (alias : Text) (prev : Option Bound) (token : Option Text) (body : Act β A)
      (s : Axes Conn)
      → Holds alias body
      → Present alias s
      → ((c : Conn) → (restore β prev c).0 ≡ ok tt)
      → ((finally body (λ _. leave β alias prev token) s).0 ≡ (body s).0)
        × ((finally body (λ _. leave β alias prev token) s).1.current ≡ token)
        × IsAt alias (previous prev) (finally body (λ _. leave β alias prev token) s).1
  left alias prev token body s holds here restores =
      let (c, e) = present-some ((body s).1.connections alias) (holds.at s here) in
      let (o, t, at) = leave_lem alias prev token c (body s).1 e (restores c) in
      let (p, q) = finally-returned body (λ _. leave β alias prev token) s o in (p, rw q t, rw q at)

  -- The state in which the body of a switch starts.
  abbrev pub entered : Text → Exec Fault Conn (Unit {0}) → Conn → Axes Conn → Axes Conn
  entered alias apply_to c s =
      put_connection alias (apply_to c).1
        (record (put_connection alias c s) { current = some alias })

  switch-entered :
      {A : Type 0} (alias : Text) (apply_to : Exec Fault Conn (Unit {0})) (body : Act β A)
      (c : Conn) (s : Axes Conn)
      → s.connections alias ≡ some c
      → (apply_to c).0 ≡ ok tt
      → switch β alias apply_to body s
        ≡ finally body (λ _. leave β alias (bound c) s.current) (entered alias apply_to c s)
  unfolding switch on_connection ◌>>=◌
  switch-entered alias apply_to body c s h a = rw h (rw (text_eq_refl alias) (rw a refl))

  -- Inside a switch: the router goes to the alias, whose connection has the schema.
  abbrev pub Inside : Text → Text → Axes Conn → Type 0
  Inside alias schema s = (s.current ≡ some alias) × IsAt alias schema s

  -- What a switch made of its body: it ran inside, and both axes are back where they were.
  abbrev pub Switched :
      {A : Type 0} → Text → Text → Text → Axes Conn → Act β A → Outcome Fault A × Axes Conn → Type 0
  Switched alias schema before s body (o, after) =
      (start : Axes Conn) × Inside alias schema start
      × (o ≡ (body start).0)
      × (after.current ≡ s.current)
      × IsAt alias before after

  put_connection-IsAt :
      (alias schema : Text) (c : Conn) (s : Axes Conn)
      → schema_name c ≡ schema
      → IsAt alias schema (put_connection alias c s)
  put_connection-IsAt alias schema c s h = (c, rw (text_eq_refl alias) refl, h)

  switch-Switched :
      {A : Type 0} (alias schema : Text) (apply_to : Exec Fault Conn (Unit {0})) (body : Act β A)
      (c : Conn) (s : Axes Conn)
      → s.connections alias ≡ some c
      → (apply_to c).0 ≡ ok tt
      → schema_name (apply_to c).1 ≡ schema
      → ((d : Conn) → (restore β (bound c) d).0 ≡ ok tt)
      → Holds alias body
      → Switched alias schema (previous (bound c)) s body (switch β alias apply_to body s)
  switch-Switched alias schema apply_to body c s h a n restores holds =
      let start = entered alias apply_to c s in
      let here : Present alias start = rw (text_eq_refl alias) refl in
      let (o, t, at) = left alias (bound c) s.current body start holds here restores in
      rw (switch-entered alias apply_to body c s h a) (
        start,
        (
          refl,
          put_connection-IsAt alias schema (apply_to c).1
              (record (put_connection alias c s) { current = some alias }) n,
        ),
        o,
        t,
        at,
      )

  -- Where the connection of the tenant's shard is there, its schema can be set to the tenant's and
  -- back, and the body drops no connection: the body of tenant_context runs with the router on the
  -- shard and the shard's connection on the tenant's schema; its outcome is passed on; and then the
  -- router axis is what it was before and the connection is back on its previous schema.
  pub tenant_context_lem :
      {A : Type 0} (t : TenantSnapshot) (body : Act β A) (c : Conn) (s : Axes Conn)
      → s.connections t.shard.alias ≡ some c
      → (set_tenant (of_tenant t) c).0 ≡ ok tt
      → ((d : Conn) → (restore β (bound c) d).0 ≡ ok tt)
      → Holds t.shard.alias body
      → Switched t.shard.alias t.schema_name
          (previous (bound c))
          s
          body
          (tenant_context β t none body s)
  unfolding tenant_context
  tenant_context_lem t body c s h a restores holds =
      switch-Switched t.shard.alias t.schema_name (set_tenant (of_tenant t)) body c s h a
        (set_tenant_lem (of_tenant t) c a ∙ schema_of-of_tenant t) restores holds

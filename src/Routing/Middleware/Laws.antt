-- ===== src/Routing/Middleware/Laws.antt =====
-- What a request meets behind the routing middleware, and how it leaves the shard's connection.
use mt_shards_back_test.Base.{
  ◌≡◌, refl, ◌∙◌, false, Option, none, some, Text, text_eq, text_eq_refl,
}
use mt_shards_back_test.Base.Exec.{Outcome, ok, Exec, gets, modify, finally}
use mt_shards_back_test.Base.Exec.Finally.{finally-returned, finally-state}
use mt_shards_back_test.Base.Exec.Keeps.{Keeps-bind, Keeps-gets, Keeps-modify, Keeps-finally}
use mt_shards_back_test.Resolver.Snapshot.{TenantSnapshot}
use mt_shards_back_test.Routing.Context.{
  Fault, Backend, Axes, Act, default, bind_alias, put_connection, on_connection, on_found, restore,
  leave, switch, tenant_context,
}
use mt_shards_back_test.Routing.Context.Laws.{
  on_connection-some, IsAt, Present, present-some, Holds, Inside, Switched, tenant_context_lem,
  previous,
}
use mt_shards_back_test.Routing.Middleware.{routed, call}

module _ (β : Backend) where
  open β use {
    Conn, Bound, bound, public, schema_name, of_tenant, set_tenant, set_schema_to_public,
    set_schema_to_public_lem,
  }

  found-Holds :
      {A : Type 0} (alias : Text) (m : Exec Fault Conn A) (o : Option Conn) (s : Axes Conn)
      → Present β alias s
      → Present β alias (on_found β alias m o s).1
  found-Holds alias m none s h = h
  found-Holds alias m (some c) s h = rw (text_eq_refl alias) refl

  on_connection-Holds :
      {A : Type 0} (alias : Text) (m : Exec Fault Conn A) → Holds β alias (on_connection β alias m)
  unfolding on_connection
  on_connection-Holds alias m = record { at = λ s h. found-Holds alias m (s.connections alias) s h }

  bind_alias-Holds : (alias : Text) (a : Option Text) → Holds β alias (modify (bind_alias a))
  bind_alias-Holds alias a = Keeps-modify (bind_alias a) (λ s h. h)

  leave-Holds :
      (alias : Text) (prev : Option Bound) (token : Option Text)
      → Holds β alias (leave β alias prev token)
  unfolding leave
  leave-Holds alias prev token =
      Keeps-bind (on_connection β alias (restore β prev)) _
        (on_connection-Holds alias (restore β prev)) (λ _. bind_alias-Holds alias token)

  switch-Holds :
      {A : Type 0} (alias : Text) (apply_to : Exec Fault Conn (Unit {0})) (body : Act β A)
      → Holds β alias body
      → Holds β alias (switch β alias apply_to body)
  unfolding switch
  switch-Holds alias apply_to body holds =
      Keeps-bind (on_connection β alias (gets bound)) _ (on_connection-Holds alias (gets bound))
        (λ prev. Keeps-bind (gets (λ s. s.current)) _ (Keeps-gets (λ s. s.current)) (λ token.
          Keeps-bind (modify (bind_alias (some alias))) _ (bind_alias-Holds alias (some alias))
            (λ _.
              Keeps-finally _ _
                (Keeps-bind (on_connection β alias apply_to) _ (on_connection-Holds alias apply_to)
                  (λ _. holds))
                (λ _. leave-Holds alias prev token))))

  tenant_context-Holds :
      {A : Type 0} (t : TenantSnapshot) (body : Act β A)
      → Holds β t.shard.alias body
      → Holds β t.shard.alias (tenant_context β t none body)
  unfolding tenant_context
  tenant_context-Holds t body holds =
      switch-Holds t.shard.alias (set_tenant (of_tenant t)) body holds

  on_connection-public :
      (alias : Text) (s : Axes Conn)
      → Present β alias s
      → ((d : Conn) → (set_schema_to_public d).0 ≡ ok tt)
      → ((on_connection β alias set_schema_to_public s).0 ≡ ok tt)
        × IsAt β alias public (on_connection β alias set_schema_to_public s).1
        × ((on_connection β alias set_schema_to_public s).1.current ≡ s.current)
  on_connection-public alias s here resets =
      let (c, e) = present-some β (s.connections alias) here in
      rw (on_connection-some β alias set_schema_to_public c s e) (
        resets c,
        (
          (set_schema_to_public c).1,
          rw (text_eq_refl alias) refl,
          set_schema_to_public_lem c (resets c),
        ),
        refl,
      )

  -- The state in which tenant_context is entered, and what is left of the request then.
  routed-some :
      {A : Type 0} (t : TenantSnapshot) (body : Act β A) (c : Conn) (s : Axes Conn)
      → s.connections t.shard.alias ≡ some c
      → routed β t body s
        ≡ finally
            (tenant_context β t none body)
            (λ _. on_connection β t.shard.alias set_schema_to_public)
            (put_connection t.shard.alias c s)
  unfolding routed
  routed-some t body c s e = rw (on_connection-some β t.shard.alias (gets (λ d. d)) c s e) refl

  -- On every path of a routed request whose tenant is on another shard than `default`, with the
  -- view, the setting of the schema or its restoring raising, the shard's connection ends on the
  -- public schema, if it was there before, the view keeps it and setting public does not raise.
  pub call_public :
      {A : Type 0} (t : TenantSnapshot) (body : Act β A) (s : Axes Conn)
      → text_eq t.shard.alias default ≡ false
      → Present β t.shard.alias s
      → ((d : Conn) → (set_schema_to_public d).0 ≡ ok tt)
      → Holds β t.shard.alias body
      → IsAt β t.shard.alias public (call β (some t) body s).1
  unfolding call
  call_public t body s other here resets holds =
      let alias = t.shard.alias in
      let (c, e) = present-some β (s.connections alias) here in
      let inner = tenant_context β t none body in
      let start = put_connection alias c s in
      let kept = (tenant_context-Holds t body holds).at start (rw (text_eq_refl alias) refl) in
      let (o, at, same) = on_connection-public alias (inner start).1 kept resets in
      rw other (
        rw (routed-some t body c s e)
          (rw (finally-state inner (λ _. on_connection β alias set_schema_to_public) start) at))

  -- What a request on a shard makes of its view: it ran on the shard and its schema, the outcome is
  -- the view's, the router axis is restored, and the shard's connection is on the public schema.
  abbrev pub Served :
      {A : Type 0} → TenantSnapshot → Axes Conn → Act β A → Outcome Fault A × Axes Conn → Type 0
  Served t s body (o, after) =
      (start : Axes Conn) × Inside β t.shard.alias t.schema_name start
      × (o ≡ (body start).0)
      × (after.current ≡ s.current)
      × IsAt β t.shard.alias public after

  finish :
      {A : Type 0} (t : TenantSnapshot) (before : Text) (s : Axes Conn) (body : Act β A)
      (inner : Act β A) (start : Axes Conn)
      → Switched β t.shard.alias t.schema_name before start body (inner start)
      → start.current ≡ s.current
      → ((d : Conn) → (set_schema_to_public d).0 ≡ ok tt)
      → Served t s body
          (finally inner (λ _. on_connection β t.shard.alias set_schema_to_public) start)
  finish t before s body inner start switched same resets =
      let alias = t.shard.alias in
      let (entered, inside, outcome, current, (d, e, _)) = switched in
      let (returned, at, kept) = on_connection-public alias (inner start).1 (rw e refl) resets in
      let (p, q) =
        finally-returned inner (λ _. on_connection β alias set_schema_to_public) start returned in
      (entered, inside, p ∙ outcome, rw q (kept ∙ current ∙ same), rw q at)

  -- Where the connection of the tenant's shard is there, its schema can be set to the tenant's, back
  -- and to public, and the view drops no connection, a request of a tenant on another shard than
  -- `default` runs the view with the router on the shard and the shard's connection on the tenant's
  -- schema, passes the view's outcome on, restores the router axis, and leaves the shard's
  -- connection on the public schema.
  pub call_served :
      {A : Type 0} (t : TenantSnapshot) (body : Act β A) (c : Conn) (s : Axes Conn)
      → text_eq t.shard.alias default ≡ false
      → s.connections t.shard.alias ≡ some c
      → (set_tenant (of_tenant t) c).0 ≡ ok tt
      → ((d : Conn) → (restore β (bound c) d).0 ≡ ok tt)
      → ((d : Conn) → (set_schema_to_public d).0 ≡ ok tt)
      → Holds β t.shard.alias body
      → Served t s body (call β (some t) body s)
  unfolding call
  call_served t body c s other e a restores resets holds =
      let alias = t.shard.alias in
      let inner = tenant_context β t none body in
      let start = put_connection alias c s in
      let at : start.connections alias ≡ some c = rw (text_eq_refl alias) refl in
      let switched = tenant_context_lem β t body c start at a restores holds in
      rw other (
        rw (routed-some t body c s e)
          (finish t (previous β (bound c)) s body inner start switched refl resets))

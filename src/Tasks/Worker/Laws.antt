-- ===== src/Tasks/Worker/Laws.antt =====
-- In which tenant's context TenantTask runs a task (tenants/celery/task.py).
use mt_shards_back_test.Base.{ℕ, ◌≡◌, refl, ap, ◌∙◌, true, false, none, some, Text, text_eq, ◌∷◌}
use mt_shards_back_test.Base.Exec.{Outcome, ok, pure, gets, ◌>>=◌}
use mt_shards_back_test.Base.Exec.Finally.{bind-runs}
use mt_shards_back_test.Resolver.Snapshot.{TenantSnapshot}
use mt_shards_back_test.Resolver.Store.{Store}
use mt_shards_back_test.Resolver.Cache.{Config, enabled, hit, read_hold, get_schema_snapshot}
use mt_shards_back_test.Routing.Context.{Fault, Backend, Act, restore, tenant_context}
use mt_shards_back_test.Routing.Context.Laws.{Switched, Holds, previous, tenant_context_lem}
use mt_shards_back_test.Tasks.Worker.{Worker, Task, on_axes, get_tenant_for_schema, call}

module _ (β : Backend) (σ : Store) (cfg : Config) (db_get : Text → Task β σ cfg TenantSnapshot)
    (seconds : ℕ) where
  open β use {Conn, bound, public, schema_name, of_tenant, set_tenant}

  -- The tenant that the snapshot cache or, while it holds the schema, the database answers.
  pub data Authority (schema : Text) (t : TenantSnapshot) (w : Worker Conn σ.State) : Type 0 where
    cached : get_schema_snapshot σ schema w.shared ≡ hit t → Authority schema t w
    held :
        get_schema_snapshot σ schema w.shared ≡ read_hold
        → db_get schema w ≡ (ok t, w)
        → Authority schema t w

  authority-answers :
      (schema : Text) (t : TenantSnapshot) (w : Worker Conn σ.State)
      → enabled cfg ≡ true
      → Authority schema t w
      → get_tenant_for_schema β σ cfg db_get seconds schema w ≡ (ok t, w)
  unfolding get_tenant_for_schema gets pure ◌>>=◌
  authority-answers schema t w on (cached h) = rw on (rw h refl)
  authority-answers schema t w on (held h d) = rw on (rw h d)

  -- What a task made of its body: the look-up gave the tenant and left the worker as it was, both of
  -- its caches included; then the body ran on the tenant's shard and schema, and the axes are
  -- restored.
  abbrev pub Ran :
      {A : Type 0}
      → Text
      → TenantSnapshot
      → Text
      → Worker Conn σ.State
      → Act β A
      → Outcome Fault A × Worker Conn σ.State
      → Type 0
  Ran schema t before w body r =
      (get_tenant_for_schema β σ cfg db_get seconds schema w ≡ (ok t, w))
      × Switched β t.shard.alias t.schema_name before w.axes body (r.0, r.1.axes)

  -- Whatever the worker's own cache has of the schema: while the snapshot cache is enabled and has
  -- the tenant, or holds the schema after an invalidation and the database answers the tenant, the
  -- look-up of a task's tenant gives that tenant and changes neither cache, the task's body, which
  -- here acts on the two axes only, runs in that tenant's context, its outcome is passed on, and
  -- both axes are restored; if the shard's connection is there and can be set to the tenant's schema
  -- and back, and the body drops no connection.
  pub call_lem :
      {A : Type 0} (c : ℕ) (schema : Text) (t : TenantSnapshot) (body : Act β A) (conn : Conn)
      (w : Worker Conn σ.State)
      → enabled cfg ≡ true
      → text_eq (c ∷ schema) public ≡ false
      → Authority (c ∷ schema) t w
      → w.axes.connections t.shard.alias ≡ some conn
      → (set_tenant (of_tenant t) conn).0 ≡ ok tt
      → ((d : Conn) → (restore β (bound conn) d).0 ≡ ok tt)
      → Holds β t.shard.alias body
      → Ran
          (c ∷ schema)
          t
          (previous β (bound conn))
          w
          body
          (call β σ cfg db_get seconds (some (c ∷ schema)) body w)
  unfolding call on_axes
  call_lem c schema t body conn w on other authority e a restores holds =
      let got = authority-answers (c ∷ schema) t w on authority in
      let run : TenantSnapshot → Task β σ cfg _ =
        λ u. on_axes β σ cfg (tenant_context β u none body) in
      let switched = tenant_context_lem β t body conn w.axes e a restores holds in
      let m = get_tenant_for_schema β σ cfg db_get seconds (c ∷ schema) in
      let ran = bind-runs m run t w (ap (λ r. r.0) got) ∙ ap (λ r. run t r.1) got in
      rw other (rw ran (got, switched))

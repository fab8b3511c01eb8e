-- ===== src/Resolver/Cache/Fill.antt =====
-- What a fill and a flush leave in the cache: ResolveCache.put and forget_all.
use mt_shards_back_test.Base.{
  ℕ, ◌≡◌, ◌≢◌, refl, ap, ◌∙◌, true, false, not, ◌&&◌, Option, none, some, ◌++◌, Text, codes,
  text_eq, text_eq_refl, starts_with, starts_with-append,
}
use mt_shards_back_test.Resolver.Snapshot.{Source, capture, dump, Value, payload, load-dump}
use mt_shards_back_test.Resolver.Store.{Store}
use mt_shards_back_test.Resolver.Cache.{
  Config, ttl_for, nonzero, snap_key, schema_snap_key, reading, hit, read_miss, get_snapshot,
  get_schema_snapshot, put, forget_all,
}
use mt_shards_back_test.Resolver.Cache.Keys.{keys_differ, keys_differ', snap_key-eq}
use mt_shards_back_test.Resolver.Cache.Laws.{off, filled_once, set_nx-keeps, put-on}

module _ (σ : Store) where
  open σ use {State, get, set_nx, delete_prefix, set_nx_flag, get-set_nx, get-delete_prefix}

  set_nx-lands :
      (k : Text) (w : Value) (ttl : Option ℕ) (s : State)
      → ttl ≢ some 0
      → get k s ≡ none
      → get k (set_nx k w ttl s).1 ≡ some w
  set_nx-lands k w ttl s lasting absent =
      get-set_nx k k w ttl s lasting ∙ rw (text_eq_refl k, absent) refl

  set_nx-apart :
      (k j : Text) (w : Value) (ttl : Option ℕ) (s : State)
      → ttl ≢ some 0
      → text_eq k j ≡ false
      → get j (set_nx k w ttl s).1 ≡ get j s
  set_nx-apart k j w ttl s lasting apart = get-set_nx k j w ttl s lasting ∙ rw apart refl

  put-host :
      (cfg : Config) (h : Text) (t : Source) (s : State)
      → off σ cfg ≡ false
      → ttl_for cfg t ≢ some 0
      → get (snap_key h) s ≡ none
      → get (snap_key h) (put σ cfg h t s).1 ≡ some (payload (dump t))
  put-host cfg h t s e lasting absent =
      let w = payload (dump t) in
      let ttl = ttl_for cfg t in
      rw (put-on σ cfg h t s e) (
        set_nx-keeps σ (schema_snap_key (capture t).schema_name) (snap_key h) w w ttl
          (filled_once σ cfg h t s).1 lasting (set_nx-lands (snap_key h) w ttl s lasting absent))

  put-schema :
      (cfg : Config) (h : Text) (t : Source) (s : State)
      → off σ cfg ≡ false
      → ttl_for cfg t ≢ some 0
      → get (schema_snap_key (capture t).schema_name) s ≡ none
      → get (schema_snap_key (capture t).schema_name) (put σ cfg h t s).1 ≡ some (payload (dump t))
  put-schema cfg h t s e lasting absent =
      let w = payload (dump t) in
      let ttl = ttl_for cfg t in
      let key = schema_snap_key (capture t).schema_name in
      rw (put-on σ cfg h t s e) (
        set_nx-lands key w ttl (filled_once σ cfg h t s).1 lasting (
          set_nx-apart (snap_key h) key w ttl s lasting (keys_differ h (capture t).schema_name)
          ∙ absent))

  -- When positives are cached, with a time to live that is not 0, and the cache has no entry for
  -- the host and none for the schema, `put` says that it filled the host, and both the host and the
  -- schema then read as the snapshot captured from the tenant, with no domain_url; what is read for
  -- any other host is as before.
  pub put-served :
      (cfg : Config) (h g : Text) (t : Source) (s : State)
      → not cfg.warm && not (nonzero cfg.pos_ttl) ≡ false
      → ttl_for cfg t ≢ some 0
      → get (snap_key h) s ≡ none
      → get (schema_snap_key (capture t).schema_name) s ≡ none
      → text_eq h g ≡ false
      → ((put σ cfg h t s).0 ≡ true)
        × (get_snapshot σ h (put σ cfg h t s).1 ≡ hit (record (capture t) { domain_url = none }))
        × (get_schema_snapshot σ (capture t).schema_name (put σ cfg h t s).1
            ≡ hit (record (capture t) { domain_url = none }))
        × (get_snapshot σ g (put σ cfg h t s).1 ≡ get_snapshot σ g s)
  unfolding get_snapshot get_schema_snapshot
  put-served cfg h g t s e lasting absent absent' apart =
      let w = payload (dump t) in
      let ttl = ttl_for cfg t in
      let schema = (capture t).schema_name in
      (
        rw (put-on σ cfg h t s e) (set_nx_flag (snap_key h) w ttl s lasting ∙ rw absent refl),
        ap (reading false) (put-host cfg h t s e lasting absent) ∙ ap hit (load-dump t),
        ap (reading true) (put-schema cfg h t s e lasting absent') ∙ ap hit (load-dump t),
        ap (reading false) (
            rw (put-on σ cfg h t s e) (
              set_nx-apart (schema_snap_key schema) (snap_key g) w ttl (filled_once σ cfg h t s).1
                lasting (keys_differ' g schema)
              ∙ set_nx-apart (snap_key h) (snap_key g) w ttl s lasting (snap_key-eq h g ∙ apart))),
      )

  deleted : (p k : Text) (s : State) → starts_with k p ≡ true → get k (delete_prefix p s) ≡ none
  deleted p k s e = get-delete_prefix p k s ∙ rw e refl

  spared : (p k : Text) (s : State) → starts_with k p ≡ false → get k (delete_prefix p s) ≡ get k s
  spared p k s e = get-delete_prefix p k s ∙ rw e refl

  -- After forget_all every host and every schema reads as a miss, and every key that starts with
  -- neither snapshot prefix holds what it held.
  pub forget_all_lem :
      (h k : Text) (s : State)
      → starts_with k (codes "host-snap:") ≡ false
      → starts_with k (codes "schema-snap:") ≡ false
      → (get_snapshot σ h (forget_all σ s) ≡ read_miss)
        × (get_schema_snapshot σ h (forget_all σ s) ≡ read_miss)
        × (get k (forget_all σ s) ≡ get k s)
  unfolding get_snapshot get_schema_snapshot forget_all snap_key schema_snap_key starts_with
  forget_all_lem h k s other other' =
      let hosts = codes "host-snap:" in
      let schemas = codes "schema-snap:" in
      let s' = delete_prefix hosts s in
      (
        ap (reading false) (
            spared schemas (hosts ++ h) s' refl
            ∙ deleted hosts (hosts ++ h) s (starts_with-append hosts h)),
        ap (reading true) (deleted schemas (schemas ++ h) s' (starts_with-append schemas h)),
        spared schemas k s' other' ∙ spared hosts k s other,
      )

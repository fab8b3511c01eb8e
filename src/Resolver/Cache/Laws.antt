-- ===== src/Resolver/Cache/Laws.antt =====
-- What an invalidation leaves in the cache, and what a later fill does to it.
use mt_shards_back_test.Base.{
  ℕ, ◌≡◌, ◌≢◌, refl, ap, ◌∙◌, Bool, true, false, not, ◌&&◌, Option, none, some, List, [], ◌∷◌, map,
  Text, text_eq, text_eq_refl, text_eq_iff, elem, if◌then◌else◌, arith, inl, inr, Bool-cases,
}
use mt_shards_back_test.Resolver.Snapshot.{
  Source, TenantModel, capture, dump, Value, payload, tombstone,
}
use mt_shards_back_test.Resolver.Store.{Store, batch_value}
use mt_shards_back_test.Resolver.Cache.{
  Config, ttl_for, nonzero, snap_key, schema_snap_key, keys_for, reading, read_hold, read_miss,
  get_snapshot, get_schema_snapshot, put, mark, invalidate, forget_tenant,
}
use mt_shards_back_test.Resolver.Cache.Keys.{elem-append, elem-map-snap_key}

batch_value-mark :
    (ks : List Text) (j : Text)
    → batch_value (mark ks) j ≡ (if elem j ks then some tombstone else none)
unfolding batch_value elem
batch_value-mark [] j = refl
batch_value-mark (k ∷ ks) j = ground (arith, batch_value-mark ks j)

abbrev pub held : Config → Option Value
held cfg = if nonzero cfg.hold then some tombstone else none

hold_ttl : (cfg : Config) → nonzero cfg.hold ≡ true → some cfg.hold ≢ some 0
hold_ttl cfg h = ground arith

module _ (σ : Store) where
  open σ use {
    State, get, set_nx, delete_prefix, set_nx_flag, get-set_nx, get-set_many, get-delete_many,
    get-delete_prefix,
  }

  pub get-invalidate :
      (cfg : Config) (ks : List Text) (j : Text) (s : State)
      → get j (invalidate σ cfg ks s) ≡ (if elem j ks then held cfg else get j s)
  unfolding invalidate elem
  get-invalidate cfg [] j s = refl
  get-invalidate cfg (k ∷ ks) j s = elim (Bool-cases (nonzero cfg.hold)) [
    | inl h ↦ ground (
      arith,
      get-set_many (mark (k ∷ ks)) j (some cfg.hold) s (hold_ttl cfg h),
      batch_value-mark (k ∷ ks) j,
    )
    | inr h ↦ ground (arith, get-delete_many (k ∷ ks) j s)
  ]

  forget_tenant-host :
      (cfg : Config) (t : TenantModel) (h : Text) (s : State)
      → nonzero cfg.hold ≡ true
      → elem h t.domains ≡ true
      → get (snap_key h) (forget_tenant σ cfg t s) ≡ some tombstone
  unfolding forget_tenant keys_for
  forget_tenant-host cfg t h s on member = ground (
    arith,
    get-invalidate cfg (keys_for t) (snap_key h) s,
    elem-append (snap_key h) (map snap_key t.domains) (schema_snap_key t.schema_name ∷ []),
    elem-map-snap_key h t.domains,
  )

  forget_tenant-schema :
      (cfg : Config) (t : TenantModel) (s : State)
      → nonzero cfg.hold ≡ true
      → get (schema_snap_key t.schema_name) (forget_tenant σ cfg t s) ≡ some tombstone
  unfolding forget_tenant keys_for elem
  forget_tenant-schema cfg t s on = ground (
    arith,
    get-invalidate cfg (keys_for t) (schema_snap_key t.schema_name) s,
    elem-append (schema_snap_key t.schema_name) (map snap_key t.domains)
        (schema_snap_key t.schema_name ∷ []),
    text_eq_refl (schema_snap_key t.schema_name),
  )

  pub set_nx-keeps :
      (j k : Text) (w v : Value) (ttl : Option ℕ) (s : State)
      → ttl ≢ some 0
      → get k s ≡ some v
      → get k (set_nx j w ttl s).1 ≡ some v
  set_nx-keeps j k w v ttl s lasting present = elim (Bool-cases (text_eq j k)) [
    | inl e ↦
        let same = (text_eq_iff j k).0 e in
        get-set_nx j k w ttl s lasting ∙ rw (e, ap (λ x. get x s) same, present) refl
    | inr e ↦ get-set_nx j k w ttl s lasting ∙ rw (e) present
  ]

  abbrev pub off : Config → Bool
  off cfg = not cfg.warm && not (nonzero cfg.pos_ttl)

  abbrev pub filled_once : Config → Text → Source → State → Bool × State
  filled_once cfg h t s = set_nx (snap_key h) (payload (dump t)) (ttl_for cfg t) s

  abbrev pub filled_twice : Config → Text → Source → State → State
  filled_twice cfg h t s =
      (set_nx (schema_snap_key (capture t).schema_name) (payload (dump t)) (ttl_for cfg t)
        (filled_once cfg h t s).1).1

  put-off :
      (cfg : Config) (h : Text) (t : Source) (s : State)
      → off cfg ≡ true
      → put σ cfg h t s ≡ (false, s)
  unfolding put
  put-off cfg h t s e = rw e refl

  pub put-on :
      (cfg : Config) (h : Text) (t : Source) (s : State)
      → off cfg ≡ false
      → put σ cfg h t s ≡ ((filled_once cfg h t s).0, filled_twice cfg h t s)
  unfolding put
  put-on cfg h t s e = rw e refl

  -- A key that holds a value keeps it through a fill.
  put-keeps :
      (cfg : Config) (h : Text) (t : Source) (k : Text) (v : Value) (s : State)
      → ttl_for cfg t ≢ some 0
      → get k s ≡ some v
      → get k (put σ cfg h t s).1 ≡ some v
  put-keeps cfg h t k v s lasting present =
      let w = payload (dump t) in
      let ttl = ttl_for cfg t in
      let key = schema_snap_key (capture t).schema_name in
      elim (Bool-cases (off cfg)) [
        | inl e ↦ rw (put-off cfg h t s e) present
        | inr e ↦ rw (put-on cfg h t s e) (
            set_nx-keeps key k w v ttl (filled_once cfg h t s).1 lasting
              (set_nx-keeps (snap_key h) k w v ttl s lasting present))
      ]

  put-declined :
      (cfg : Config) (h : Text) (t : Source) (v : Value) (s : State)
      → ttl_for cfg t ≢ some 0
      → get (snap_key h) s ≡ some v
      → (put σ cfg h t s).0 ≡ false
  put-declined cfg h t v s lasting present = elim (Bool-cases (off cfg)) [
    | inl e ↦ rw (put-off cfg h t s e) refl
    | inr e ↦
        rw (put-on cfg h t s e)
          (set_nx_flag (snap_key h) (payload (dump t)) (ttl_for cfg t) s lasting ∙ rw present refl)
  ]

  -- While the hold is on, after forget_tenant and its commit every domain of the tenant and its
  -- schema are held: a host reads as a miss, the schema as held, and a later fill with a
  -- tenant whose time to live is not 0 says that it did not fill the host, and for whatever host it
  -- is made it leaves the host a miss and the schema held.
  pub forget_tenant-held :
      (cfg : Config) (t : TenantModel) (h g : Text) (stale : Source) (s : State)
      → nonzero cfg.hold ≡ true
      → elem h t.domains ≡ true
      → ttl_for cfg stale ≢ some 0
      → (get_snapshot σ h (forget_tenant σ cfg t s) ≡ read_miss)
        × (get_schema_snapshot σ t.schema_name (forget_tenant σ cfg t s) ≡ read_hold)
        × ((put σ cfg h stale (forget_tenant σ cfg t s)).0 ≡ false)
        × (get_snapshot σ h (put σ cfg g stale (forget_tenant σ cfg t s)).1 ≡ read_miss)
        × (get_schema_snapshot σ t.schema_name (put σ cfg g stale (forget_tenant σ cfg t s)).1
            ≡ read_hold)
  unfolding get_snapshot get_schema_snapshot
  forget_tenant-held cfg t h g stale s on member lasting =
      let s' = forget_tenant σ cfg t s in
      let host = forget_tenant-host cfg t h s on member in
      let schema = forget_tenant-schema cfg t s on in
      (
        ap (reading false) host,
        ap (reading true) schema,
        put-declined cfg h stale tombstone s' lasting host,
        ap (reading false) (put-keeps cfg g stale (snap_key h) tombstone s' lasting host),
        ap (reading true)
            (put-keeps cfg g stale (schema_snap_key t.schema_name) tombstone s' lasting schema),
      )

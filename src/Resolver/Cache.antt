-- ===== src/Resolver/Cache.antt =====
-- tenants/resolver/cache.py: the snapshot cache, over a backend `σ`. An invalidation is deferred to
-- the commit of the transaction: the forget functions give the keys, `invalidate` is what runs then.
pub mod Keys
pub mod Laws
pub mod Fill
pub mod Sweep
use mt_shards_back_test.Base.{
  ℕ, ◌+◌, Bool, true, false, not, ◌&&◌, ◌||◌, Option, none, some, List, [], ◌∷◌, ◌++◌, map, leb,
  ◌==◌, Text, codes, text_eq, elem, length, if◌then◌else◌, is_some,
}
use mt_shards_back_test.Migrator.Db.{Status}
use mt_shards_back_test.Resolver.Snapshot.{
  TenantSnapshot, Source, row, snap, TenantModel, capture, dump, load, Value, payload, negative,
  tombstone, corrupt, Payload,
}
use mt_shards_back_test.Resolver.Store.{Store}

-- The settings that the cache reads, and WARM_TTL_BY_STATUS, where `some none` is no expiry.
pub record Config : Type 0 where
  pub pos_ttl : ℕ
  pub neg_ttl : ℕ
  pub hold : ℕ
  pub warm : Bool
  pub ttl_by_status : Status → Option (Option ℕ)

abbrev pub ttl_or : ℕ → Option (Option ℕ) → Option ℕ
ttl_or flat none = some flat
ttl_or flat (some ttl) = ttl

unfoldable pub ttl_for_status : Config → Status → Option ℕ
ttl_for_status cfg status = ttl_or cfg.pos_ttl (cfg.ttl_by_status status)

unfoldable pub ttl_for : Config → Source → Option ℕ
unfolding ttl_for_status
ttl_for cfg t = if cfg.warm then ttl_for_status cfg (capture t).status else some cfg.pos_ttl

abbrev pub nonzero : ℕ → Bool
nonzero n = not (n == 0)

unfoldable pub enabled : Config → Bool
enabled cfg = cfg.warm || (nonzero cfg.pos_ttl || nonzero cfg.neg_ttl)

-- _snap_key and _schema_snap_key
unfoldable pub snap_key : Text → Text
snap_key hostname = codes "host-snap:" ++ hostname

unfoldable pub schema_snap_key : Text → Text
schema_snap_key schema = codes "schema-snap:" ++ schema

-- _keys_for
unfoldable pub keys_for : TenantModel → List Text
keys_for t = map snap_key t.domains ++ (schema_snap_key t.schema_name ∷ [])

-- _classify: whether a raw cached value is a snapshot payload.
abbrev pub is_positive : Option Value → Bool
is_positive none = false
is_positive (some (payload p)) = true
is_positive (some negative) = false
is_positive (some tombstone) = false
is_positive (some corrupt) = false

-- What a read gives its caller.
pub data Reading : Type 0 where
  hit : TenantSnapshot → Reading
  read_neg read_hold read_miss : Reading

abbrev pub reading : Bool → Option Value → Reading
reading schema none = read_miss
reading schema (some (payload p)) = hit (load p)
reading schema (some negative) = if schema then read_miss else read_neg
reading schema (some tombstone) = if schema then read_hold else read_miss
reading schema (some corrupt) = read_miss

abbrev pub mark : List Text → List (Text × Value)
mark [] = []
mark (k ∷ ks) = (k, tombstone) ∷ mark ks

abbrev pub nonempty_texts : List Text → List Text
nonempty_texts [] = []
nonempty_texts ([] ∷ ts) = nonempty_texts ts
nonempty_texts ((c ∷ t) ∷ ts) = (c ∷ t) ∷ nonempty_texts ts

abbrev pub schema_in : Option Value → List Text
schema_in (some (payload p)) = p.tenant_schema_name ∷ []
schema_in none = []
schema_in (some negative) = []
schema_in (some tombstone) = []
schema_in (some corrupt) = []

module _ (σ : Store) where
  open σ use {State, get, set_nx, set_many, delete_many, delete_prefix, scan}

  unfoldable pub get_snapshot : Text → State → Reading
  get_snapshot hostname s = reading false (get (snap_key hostname) s)

  unfoldable pub get_schema_snapshot : Text → State → Reading
  get_schema_snapshot schema s = reading true (get (schema_snap_key schema) s)

  -- Whether the host snapshot was written, and the store.
  unfoldable pub put : Config → Text → Source → State → Bool × State
  put cfg hostname t s =
      if not cfg.warm && not (nonzero cfg.pos_ttl)
      then (false, s)
      else (let v = payload (dump t) in
          let ttl = ttl_for cfg t in
          let first = set_nx (snap_key hostname) v ttl s in
          (first.0, (set_nx (schema_snap_key (capture t).schema_name) v ttl first.1).1))

  unfoldable pub store_miss : Config → Text → State → State
  store_miss cfg hostname s =
      if nonzero cfg.neg_ttl
      then (set_nx (snap_key hostname) negative (some cfg.neg_ttl) s).1
      else s

  -- `_invalidate` of _tombstone_keys
  unfoldable pub invalidate : Config → List Text → State → State
  invalidate cfg [] s = s
  invalidate cfg (k ∷ ks) s =
      if nonzero cfg.hold
      then set_many (mark (k ∷ ks)) (some cfg.hold) s
      else delete_many (k ∷ ks) s

  -- The schemas of the positive snapshots among the hosts.
  unfoldable pub derived_schemas : List Text → State → List Text
  derived_schemas [] s = []
  derived_schemas (h ∷ hosts) s = schema_in (get (snap_key h) s) ++ derived_schemas hosts s

  -- The keys of forget_hosts.
  unfoldable pub forget_hosts : List Text → List Text → State → List Text
  unfolding derived_schemas
  forget_hosts hostnames schemas s =
      let hosts = nonempty_texts hostnames in
      map snap_key hosts ++ map schema_snap_key (nonempty_texts schemas ++ derived_schemas hosts s)

  -- The store after forget_tenant and the commit.
  unfoldable pub forget_tenant : Config → TenantModel → State → State
  unfolding keys_for
  forget_tenant cfg t s = invalidate cfg (keys_for t) s

  -- forget_all: both snapshot prefixes and nothing else.
  unfoldable pub forget_all : State → State
  forget_all s = delete_prefix (codes "schema-snap:") (delete_prefix (codes "host-snap:") s)

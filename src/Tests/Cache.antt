-- ===== src/Tests/Cache.antt =====
-- The cache of the resolver at one tenant, before and after its invalidation.
use mt_shards_back_test.Base.{
  ◌≡◌, refl, Bool, true, false, not, none, [], ◌∷◌, Text, codes, text_eq, elem, arith,
}
use mt_shards_back_test.Migrator.Db.{Status}
use mt_shards_back_test.Resolver.Snapshot.{TenantModel, row, capture, negative}
use mt_shards_back_test.Resolver.Cache.{
  Config, ttl_for, ttl_for_status, snap_key, schema_snap_key, get_snapshot, get_schema_snapshot,
  put, forget_tenant, read_miss, read_hold, hit,
}
use mt_shards_back_test.Resolver.Cache.Laws.{forget_tenant-held}
use mt_shards_back_test.Resolver.Cache.Fill.{put-served}
use mt_shards_back_test.Resolver.Cache.Sweep.Laws.{swept, sweep_orphans_lem}
use mt_shards_back_test.Resolver.Cache.Sweep.{sweep_orphans, sweep_size}
use mt_shards_back_test.Tests.Backend.{Table, table, find}

abbrev pub acme : TenantModel
acme = record {
  id = 7;
  schema_name = codes "acme";
  status = Status.active;
  shard_id = 2;
  shard_alias = codes "shard1";
  company_name = codes "Acme";
  domains = codes "a.example" ∷ [];
}

abbrev pub settings : Config
settings = record { pos_ttl = 3600; neg_ttl = 5; hold = 5; warm = false; ttl_by_status = λ _. none }

abbrev host : Text
host = codes "a.example"

abbrev other : Text
other = codes "b.example"

-- The negative entry of the other host.
abbrev stored : Table
stored = (codes "host-snap:b.example", negative) ∷ []

abbrev after_put : Bool × Table
after_put = put table settings host (row acme) stored

abbrev after_forget : Table
after_forget = forget_tenant table settings acme after_put.1

abbrev late : Bool × Table
late = put table settings host (row acme) after_forget

forget_tenant-held_example :
    (get_snapshot table host after_forget ≡ read_miss)
    × (get_schema_snapshot table (codes "acme") after_forget ≡ read_hold)
    × (late.0 ≡ false)
    × (get_snapshot table host late.1 ≡ read_miss)
    × (get_schema_snapshot table (codes "acme") late.1 ≡ read_hold)
unfolding elem text_eq ttl_for ttl_for_status
forget_tenant-held_example =
    forget_tenant-held table settings acme host host (row acme) after_put.1 refl refl
      (λ h. ground arith)

put-served_example :
    (after_put.0 ≡ true)
    × (get_snapshot table host after_put.1 ≡ hit (capture (row acme)))
    × (get_schema_snapshot table (codes "acme") after_put.1 ≡ hit (capture (row acme)))
    × (get_snapshot table other after_put.1 ≡ get_snapshot table other stored)
unfolding find text_eq ttl_for ttl_for_status capture snap_key schema_snap_key
put-served_example =
    put-served table settings host other (row acme) stored refl (λ h. ground arith) refl refl refl

-- A host that the database does not know is swept away, and the other entries stay.
sweep_orphans_example :
    (find (snap_key host) (sweep_orphans table sweep_size [] (codes "acme" ∷ []) after_put.1).1
      ≡ swept (not (elem host [])) (find (snap_key host) after_put.1))
    × (find
          (schema_snap_key host)
          (sweep_orphans table sweep_size [] (codes "acme" ∷ []) after_put.1).1
        ≡ swept (not (elem host (codes "acme" ∷ []))) (find (schema_snap_key host) after_put.1))
sweep_orphans_example = sweep_orphans_lem table sweep_size [] (codes "acme" ∷ []) host after_put.1

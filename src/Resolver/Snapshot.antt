-- ===== src/Resolver/Snapshot.antt =====
-- tenants/resolver/snapshot.py and the values of the cache: the payload of a snapshot and the two
-- markers of tenants/resolver/markers.py.
use mt_shards_back_test.Base.{ℕ, ◌≡◌, refl, Option, none, List, Text}
use mt_shards_back_test.Migrator.Db.{Status}

pub record ShardSnapshot : Type 0 where
  pub id : ℕ
  pub alias : Text

pub record TenantSnapshot : Type 0 where
  pub id : ℕ
  pub schema_name : Text
  pub status : Status
  pub shard : ShardSnapshot
  pub domain_url : Option Text

-- A row of the Tenant model with its shard, and the fields that a snapshot leaves out.
pub record TenantModel : Type 0 where
  pub id : ℕ
  pub schema_name : Text
  pub status : Status
  pub shard_id : ℕ
  pub shard_alias : Text
  pub company_name : Text
  pub domains : List Text

pub data Source : Type 0 where
  row : TenantModel → Source
  snap : TenantSnapshot → Source

-- TenantSnapshot.capture
unfoldable pub capture : Source → TenantSnapshot
capture (snap s) = s
capture (row t) = record {
  id = t.id;
  schema_name = t.schema_name;
  status = t.status;
  shard = record { id = t.shard_id; alias = t.shard_alias };
  domain_url = none;
}

-- The dict that dump() builds.
pub record Payload : Type 0 where
  pub tenant_id : ℕ
  pub tenant_schema_name : Text
  pub tenant_status : Status
  pub shard_id : ℕ
  pub shard_alias : Text

-- A cached value as it is found: a payload, a marker, or anything else.
pub data Value : Type 0 where
  payload : Payload → Value
  negative tombstone corrupt : Value

unfoldable pub dump : Source → Payload
unfolding capture
dump t =
    let s = capture t in
    record {
      tenant_id = s.id;
      tenant_schema_name = s.schema_name;
      tenant_status = s.status;
      shard_id = s.shard.id;
      shard_alias = s.shard.alias;
    }

unfoldable pub load : Payload → TenantSnapshot
load p = record {
  id = p.tenant_id;
  schema_name = p.tenant_schema_name;
  status = p.tenant_status;
  shard = record { id = p.shard_id; alias = p.shard_alias };
  domain_url = none;
}

-- A snapshot loaded from what was dumped of a tenant's row is the one captured from the row: a
-- cache hit and a miss expose the same. Of a snapshot it is the same but for its domain_url.
pub load-dump : (t : Source) → load (dump t) ≡ record (capture t) { domain_url = none }
unfolding load dump
load-dump (row t) = refl
load-dump (snap s) = refl

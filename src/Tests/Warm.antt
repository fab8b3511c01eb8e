-- ===== src/Tests/Warm.antt =====
-- A reconcile of the host registry over three rows, in chunks of two.
use mt_shards_back_test.Base.{ℕ, ◌≡◌, refl, true, none, some, List, [], ◌∷◌, codes, text_eq, arith}
use mt_shards_back_test.Resolver.Snapshot.{TenantModel, row, capture, negative, payload, dump, load}
use mt_shards_back_test.Resolver.Cache.{Config, ttl_for, ttl_for_status, get_snapshot, hit}
use mt_shards_back_test.Resolver.Registry.{Front, Fault, member, verdict_of}
use mt_shards_back_test.Resolver.Warm.{Domain, reconcile}
use mt_shards_back_test.Resolver.Warm.Laws.{listed, snapshot_for}
use mt_shards_back_test.Resolver.Warm.Rebuild.{gate_of}
use mt_shards_back_test.Resolver.Warm.Reconcile.{reconcile_lem}
use mt_shards_back_test.Tests.Backend.{Table, table}
use mt_shards_back_test.Tests.Cache.{acme}

abbrev beta : TenantModel
beta = record acme { id = 8; schema_name = codes "beta"; domains = codes "b.example" ∷ [] }

abbrev warm_settings : Config
warm_settings = record {
  pos_ttl = 3600;
  neg_ttl = 5;
  hold = 5;
  warm = true;
  ttl_by_status = λ _. none;
}

abbrev rows : List Domain
rows =
    record { domain = codes "a.example"; tenant = acme }
    ∷ record { domain = codes "www.a.example"; tenant = acme }
    ∷ record { domain = codes "b.example"; tenant = beta }
    ∷ []

-- The new host is cached as unknown, and a host that is gone as known.
abbrev stale : Front Table
stale = record {
  cache =
      (codes "host-snap:b.example", negative)
      ∷ (codes "host-snap:old.example", payload (dump (row acme)))
      ∷ [];
  hosts = some (codes "old.example" ∷ []);
  dirty = 4;
  warm_pending = true;
  enqueued = 1;
  throttle = record { clock = 5000; probes = λ _. 1; bucket = record { tokens = 2000; ts = 10 } };
}

abbrev no_fault : Fault Table
no_fault = λ _ _. none

abbrev reconciled : ℕ × Front Table
reconciled =
    reconcile table warm_settings 2 (λ _. rows) (λ _ f. f) 500 (codes "acme" ∷ codes "beta" ∷ [])
      stale

reconcile_example :
    (verdict_of no_fault (codes "b.example") reconciled.1.hosts ≡ member)
    × (get_snapshot table (codes "b.example") reconciled.1.cache ≡ hit (capture (row beta)))
unfolding text_eq gate_of listed snapshot_for ttl_for ttl_for_status capture dump load
reconcile_example =
    reconcile_lem table warm_settings 2 (λ _. rows) (λ _ f. f) no_fault 500
      (codes "acme" ∷ codes "beta" ∷ []) stale (codes "b.example") refl
      (refl, λ h. ground arith, (refl, λ h. ground arith, (refl, λ h. ground arith, tt))) refl

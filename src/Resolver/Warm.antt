-- ===== src/Resolver/Warm.antt =====
-- tenants/resolver/registry.py: run_locked, reconcile and _rebuild_once. The rows that an attempt
-- reads and what other processes do while it runs are given; the lock is got or not. The database
-- and Redis answer.
pub mod Laws
pub mod Rebuild
pub mod Reconcile
use mt_shards_back_test.Base.{
  ℕ, zero, suc, ◌+◌, Bool, true, false, not, Option, none, some, List, [], ◌∷◌, ◌++◌, Text, text_eq,
  elem, ◌==◌, leb, if◌then◌else◌, length,
}
use mt_shards_back_test.Resolver.Snapshot.{TenantModel, Source, row}
use mt_shards_back_test.Resolver.Store.{Store}
use mt_shards_back_test.Resolver.Cache.{Config}
use mt_shards_back_test.Resolver.Cache.Sweep.{sweep_orphans}
use mt_shards_back_test.Resolver.Batch.{Keyed, put_many, put_schema_many}
use mt_shards_back_test.Resolver.Registry.{Front}

-- A row of the Domain model with its tenant.
pub record Domain : Type 0 where
  pub domain : Text
  pub tenant : TenantModel

abbrev pub add_member : Text → List Text → List Text
add_member h hosts = if elem h hosts then hosts else h ∷ hosts

-- SADD of the domains of a batch to a SET, which is none when it is absent.
unfoldable pub add_all : List Domain → Option (List Text) → Option (List Text)
unfolding elem
add_all [] set = set
add_all (d ∷ ds) none = add_all ds (some (d.domain ∷ []))
add_all (d ∷ ds) (some hosts) = add_all ds (some (add_member d.domain hosts))

unfoldable pub hosts_of : List Domain → Keyed
hosts_of [] = []
hosts_of (d ∷ ds) = (d.domain, row d.tenant) ∷ hosts_of ds

-- {dm.tenant.schema_name: dm.tenant for dm in batch}.values()
unfoldable pub set_tenant : TenantModel → List TenantModel → List TenantModel
unfolding text_eq
set_tenant t [] = t ∷ []
set_tenant t (u ∷ us) =
    let rest = set_tenant t us in if text_eq t.schema_name u.schema_name then t ∷ us else u ∷ rest

unfoldable pub tenants_of : List Domain → List TenantModel → List TenantModel
unfolding set_tenant
tenants_of [] ts = ts
tenants_of (d ∷ ds) ts = tenants_of ds (set_tenant d.tenant ts)

abbrev pub sources : List TenantModel → List Source
sources [] = []
sources (t ∷ ts) = row t ∷ sources ts

-- db_hosts
abbrev pub domains_in : List Domain → List Text
domains_in [] = []
domains_in (d ∷ ds) = d.domain ∷ domains_in ds

-- What an attempt keeps: the SET treg:hosts:new, the cache, and how many host snapshots it wrote.
pub record Build (C : Type 0) : Type 0 where
  pub new : Option (List Text)
  pub cache : C
  pub written : ℕ

module _ (σ : Store) (cfg : Config) (chunk : ℕ) where
  open σ use {State}

  -- `flush` of _rebuild_once
  unfoldable pub flush : List Domain → Build State → Build State
  unfolding add_all hosts_of tenants_of put_many put_schema_many
  flush [] b = b
  flush (d ∷ ds) b =
      let hosts = put_many σ cfg (hosts_of (d ∷ ds)) b.cache in
      let schemas = put_schema_many σ cfg (sources (tenants_of (d ∷ ds) [])) hosts.1 in
      record { new = add_all (d ∷ ds) b.new; cache = schemas.1; written = b.written + hosts.0 }

  -- The loop over the rows, with the batch so far.
  unfoldable pub build : List Domain → List Domain → Build State → Build State
  unfolding flush
  build [] batch b = flush batch b
  build (d ∷ ds) batch b =
      let more = batch ++ (d ∷ []) in
      let full = leb chunk (length more) in
      build ds (if full then [] else more) (if full then flush more b else b)

  -- _rebuild_once: the RENAME of the new SET, or the deletion of the old one where none was built.
  unfoldable pub rebuild_once : List Domain → Front State → ℕ × Front State
  unfolding build
  rebuild_once rows front =
      let b = build rows [] (record { new = none; cache = front.cache; written = 0 }) in
      (b.written, record front { cache = b.cache; hosts = b.new })

  -- What an attempt of reconcile leaves: the rows it read, what it wrote, and the front.
  abbrev pub Attempt : Type 0
  Attempt = List Domain × ℕ × Front State

  unfoldable pub sweep_after : ℕ → List Text → Attempt → ℕ × Front State
  unfolding sweep_orphans
  sweep_after size schemas a =
      let swept = sweep_orphans σ size (domains_in a.0) schemas a.2.cache in
      (a.1, record a.2 { cache = swept.1 })

  module _ (rows : ℕ → List Domain) (meanwhile : ℕ → Front State → Front State) where
    -- The attempts from the k-th on, repeated while the count of mutations moves.
    unfoldable pub attempts : ℕ → ℕ → Attempt → Attempt
    unfolding rebuild_once
    attempts zero k a = a
    attempts (suc left) k a =
        let front = a.2 in
        let (n, built) = rebuild_once (rows k) front in
        let after = meanwhile k built in
        let rest = attempts left (suc k) (rows k, n, after) in
        if after.dirty == front.dirty then (rows k, n, after) else rest

    -- reconcile: at most three attempts, then the sweep. `schemas` is the query of all schemas, and
    -- `size` the chunk of the sweep.
    unfoldable pub reconcile : ℕ → List Text → Front State → ℕ × Front State
    unfolding attempts sweep_after
    reconcile size schemas front =
        if not cfg.warm then (0, front) else sweep_after size schemas (attempts 3 0 ([], 0, front))

    abbrev pub some_first : ℕ × Front State → Option ℕ × Front State
    some_first (n, front) = (some n, front)

    -- run_locked, where the lock of treg:warming is got or not.
    unfoldable pub run_locked : Bool → ℕ → List Text → Front State → Option ℕ × Front State
    unfolding reconcile
    run_locked got size schemas front =
        if not cfg.warm
        then (none, front)
        else if not got
        then (none, front)
        else some_first (reconcile size schemas front)

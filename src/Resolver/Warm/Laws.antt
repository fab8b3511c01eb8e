-- ===== src/Resolver/Warm/Laws.antt =====
-- What a rebuild of the host registry leaves, however its rows fall into chunks.
use mt_shards_back_test.Base.{
  ◌≡◌, ◌≢◌, refl, ap, sym, Bool, false, ◌||◌, Option, none, some, List, [], ◌∷◌, ◌++◌, Text,
  text_eq, text_eq_iff, if◌then◌else◌, inl, inr, Bool-cases, All, elem, arith,
}
use mt_shards_back_test.Resolver.Snapshot.{TenantModel, Source, row, capture, dump, Value, payload}
use mt_shards_back_test.Resolver.Store.{or_else}
use mt_shards_back_test.Resolver.Cache.{Config, ttl_for, snap_key}
use mt_shards_back_test.Resolver.Cache.Keys.{keys_differ', snap_key-eq, text_eq_sym}
use mt_shards_back_test.Resolver.Batch.{by_host, by_schema}
use mt_shards_back_test.Resolver.Batch.Laws.{
  keyed_value, key_in, Distinct, Lasting, Apart, or_else_assoc, or_else-none,
}
use mt_shards_back_test.Resolver.Warm.{
  Domain, add_member, add_all, hosts_of, tenants_of, set_tenant, sources,
}

-- Whether a row has the host.
unfoldable pub listed : Text → List Domain → Bool
listed h [] = false
listed h (d ∷ ds) = text_eq d.domain h || listed h ds

abbrev pub in_set : Text → Option (List Text) → Bool
in_set h none = false
in_set h (some hosts) = elem h hosts

elem-add_member :
    (h g : Text) (hosts : List Text) → elem h (add_member g hosts) ≡ (text_eq g h || elem h hosts)
unfolding elem
elem-add_member h g hosts = elim (Bool-cases (elem g hosts)) [
  | inl e ↦ elim (Bool-cases (text_eq g h)) [
    | inl t ↦ rw (e, t) (rw (← (text_eq_iff g h).0 t) e)
    | inr t ↦ rw (e, t) refl
  ]
  | inr n ↦ rw n refl
]

pub in_set-add_all :
    (h : Text) (ds : List Domain) (set : Option (List Text))
    → in_set h (add_all ds set) ≡ (in_set h set || listed h ds)
unfolding add_all listed elem
in_set-add_all h [] set = ground arith
in_set-add_all h (d ∷ ds) none = ground (arith, in_set-add_all h ds (some (d.domain ∷ [])))
in_set-add_all h (d ∷ ds) (some hosts) = ground (
  arith,
  in_set-add_all h ds (some (add_member d.domain hosts)),
  elem-add_member h d.domain hosts,
)

pub listed-append :
    (h : Text) (xs ys : List Domain) → listed h (xs ++ ys) ≡ (listed h xs || listed h ys)
unfolding listed
listed-append h [] ys = refl
listed-append h (x ∷ xs) ys = ground (arith, listed-append h xs ys)

pub append_assoc :
    (xs : List Domain) (d : Domain) (ys : List Domain) → (xs ++ (d ∷ [])) ++ ys ≡ xs ++ (d ∷ ys)
append_assoc [] d ys = refl
append_assoc (x ∷ xs) d ys = ap (λ zs. x ∷ zs) (append_assoc xs d ys)

-- Each host once, and a time to live that lasts for each tenant.
abbrev pub Sound : Config → List Domain → Type 0
Sound cfg [] = Unit {0}
Sound cfg (d ∷ ds) =
    (listed d.domain ds ≡ false) × (ttl_for cfg (row d.tenant) ≢ some 0) × Sound cfg ds

pub Sound-prefix : (cfg : Config) (xs ys : List Domain) → Sound cfg (xs ++ ys) → Sound cfg xs
Sound-prefix cfg [] ys s = tt
Sound-prefix cfg (x ∷ xs) ys s =
    (ground (arith, s.0, listed-append x.domain xs ys), s.1, Sound-prefix cfg xs ys s.2)

pub Sound-suffix : (cfg : Config) (xs ys : List Domain) → Sound cfg (xs ++ ys) → Sound cfg ys
Sound-suffix cfg [] ys s = s
Sound-suffix cfg (x ∷ xs) ys s = Sound-suffix cfg xs ys s.2

-- The snapshot that the rows give a host, the last row's first.
unfoldable pub snapshot_for : Text → List Domain → Option Value
snapshot_for h [] = none
snapshot_for h (d ∷ ds) =
    or_else (snapshot_for h ds)
      (if text_eq d.domain h then some (payload (dump (row d.tenant))) else none)

pub snapshot_for-append :
    (h : Text) (xs ys : List Domain)
    → snapshot_for h (xs ++ ys) ≡ or_else (snapshot_for h ys) (snapshot_for h xs)
unfolding snapshot_for
snapshot_for-append h [] ys = sym (or_else-none (snapshot_for h ys))
snapshot_for-append h (x ∷ xs) ys = rw (snapshot_for-append h xs ys) (
    sym (
      or_else_assoc (snapshot_for h ys) (snapshot_for h xs)
        (if text_eq x.domain h then some (payload (dump (row x.tenant))) else none)))

-- The batch of a flush.
pub keyed_value-hosts_of :
    (h : Text) (ds : List Domain)
    → keyed_value (by_host (hosts_of ds)) (snap_key h) ≡ snapshot_for h ds
unfolding keyed_value by_host hosts_of snapshot_for
keyed_value-hosts_of h [] = refl
keyed_value-hosts_of h (d ∷ ds) = rw (keyed_value-hosts_of h ds, snap_key-eq d.domain h) refl

key_in-hosts_of :
    (h : Text) (ds : List Domain)
    → listed h ds ≡ false
    → key_in (snap_key h) (by_host (hosts_of ds)) ≡ false
unfolding key_in by_host hosts_of listed
key_in-hosts_of h [] n = refl
key_in-hosts_of h (d ∷ ds) n =
    ground (arith, n, key_in-hosts_of h ds, snap_key-eq h d.domain, text_eq_sym d.domain h)

pub hosts_of-Distinct :
    (cfg : Config) (ds : List Domain) → Sound cfg ds → Distinct (by_host (hosts_of ds))
unfolding by_host hosts_of
hosts_of-Distinct cfg [] s = tt
hosts_of-Distinct cfg (d ∷ ds) s = (key_in-hosts_of d.domain ds s.0, hosts_of-Distinct cfg ds s.2)

pub hosts_of-Lasting :
    (cfg : Config) (ds : List Domain) → Sound cfg ds → Lasting cfg (by_host (hosts_of ds))
unfolding by_host hosts_of
hosts_of-Lasting cfg [] s = tt
hosts_of-Lasting cfg (d ∷ ds) s = (s.1, hosts_of-Lasting cfg ds s.2)

pub by_schema-Apart : (h : Text) (ts : List Source) → Apart (snap_key h) (by_schema ts)
unfolding by_schema
by_schema-Apart h [] = tt
by_schema-Apart h (t ∷ ts) = (keys_differ' h (capture t).schema_name, by_schema-Apart h ts)

abbrev TenantsLast : Config → List TenantModel → Type 0
TenantsLast cfg = All (λ t. ttl_for cfg (row t) ≢ some 0)

set_tenant-TenantsLast :
    (cfg : Config) (t : TenantModel) (us : List TenantModel)
    → ttl_for cfg (row t) ≢ some 0
    → TenantsLast cfg us
    → TenantsLast cfg (set_tenant t us)
unfolding set_tenant
set_tenant-TenantsLast cfg t [] h l = (h, tt)
set_tenant-TenantsLast cfg t (u ∷ us) h l =
    elim (Bool-cases (text_eq t.schema_name u.schema_name)) [
      | inl e ↦ rw e (h, l.1)
      | inr n ↦ rw n (l.0, set_tenant-TenantsLast cfg t us h l.1)
    ]

pub tenants_of-TenantsLast :
    (cfg : Config) (ds : List Domain) (ts : List TenantModel)
    → Sound cfg ds
    → TenantsLast cfg ts
    → TenantsLast cfg (tenants_of ds ts)
unfolding tenants_of
tenants_of-TenantsLast cfg [] ts s l = l
tenants_of-TenantsLast cfg (d ∷ ds) ts s l =
    tenants_of-TenantsLast cfg ds (set_tenant d.tenant ts) s.2
      (set_tenant-TenantsLast cfg d.tenant ts s.1 l)

pub by_schema-Lasting :
    (cfg : Config) (ts : List TenantModel)
    → TenantsLast cfg ts
    → Lasting cfg (by_schema (sources ts))
unfolding by_schema
by_schema-Lasting cfg [] l = tt
by_schema-Lasting cfg (t ∷ ts) l = (l.0, by_schema-Lasting cfg ts l.1)
